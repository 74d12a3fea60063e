-- ===== src/Abac/Condition.antt =====
-- Tag conditions of app/services/abac_resolver.py: their tokens, what they mean and how `and`, `or`
-- and parentheses are read.
pub mod Round
use fabric_unified_permissio.Base.{
  String, Bool, false, not, ◌&&◌, ◌||◌, if◌then◌else◌, List, [], ◌∷◌, ◌++◌, Option, none, some,
  ◌==◌, string_eq, is_some,
}
use fabric_unified_permissio.Base.Dict.{Dict, lookup, has}

-- `has_tag(key)` and `has_tag_value(key, value)`
pub data Test : Type 0 where
  has_tag : String → Test
  has_tag_value : String → String → Test

pub data Expr : Type 0 where
  test : Test → Expr
  both : Expr → Expr → Expr
  either : Expr → Expr → Expr

-- What is left of a condition when its calls are placeholders.
pub data Token : Type 0 where
  call : Test → Token
  and_word : Token
  or_word : Token
  open_paren : Token
  close_paren : Token

abbrev is_value : Option String → String → Bool
is_value none wanted = false
is_value (some v) wanted = v == wanted

abbrev pub holds : Test → Dict String String → Bool
holds (has_tag k) tags = has k tags
holds (has_tag_value k wanted) tags = is_value (lookup k tags) wanted

abbrev pub evaluate : Expr → Dict String String → Bool
evaluate (test t) tags = holds t tags
evaluate (both a b) tags = evaluate a tags && evaluate b tags
evaluate (either a b) tags = evaluate a tags || evaluate b tags

-- An expression that is being read: the operands of `or` before, those of `and` before.
pub record Frame : Type 0 where
  pub ors : Option Expr
  pub ands : Option Expr

abbrev pub fresh : Frame
fresh = record { ors = none; ands = none }

abbrev pub join_and : Option Expr → Expr → Expr
join_and none e = e
join_and (some a) e = both a e

abbrev pub join_or : Option Expr → Expr → Expr
join_or none e = e
join_or (some a) e = either a e

-- `reading` waits for an operand; `after` has one, with the frame before it; `odd` is a text that
-- Python compiles to something else than a test of tags: a call of an operand or `()`.
pub data Reader : Type 0 where
  reading : Frame → List Frame → Reader
  after : Frame → Expr → List Frame → Reader
  failed : Reader
  odd : Reader

-- What is read up to here in this frame.
abbrev pub closed : Frame → Expr → Expr
closed f e = join_or f.ors (join_and f.ands e)

-- The frame of `()`.
abbrev is_empty_tuple : Frame → List Frame → Bool
is_empty_tuple f [] = false
is_empty_tuple f (g ∷ fs) = not (is_some f.ors) && not (is_some f.ands)

abbrev leave : List Frame → Expr → Reader
leave [] e = failed
leave (f ∷ fs) e = after f e fs

abbrev pub read : Reader → Token → Reader
read (reading f fs) (call t) = after f (test t) fs
read (reading f fs) open_paren = reading fresh (f ∷ fs)
read (reading f fs) close_paren = if is_empty_tuple f fs then odd else failed
read (reading f fs) _ = failed
read (after f e fs) and_word = reading (record f { ands = some (join_and f.ands e) }) fs
read (after f e fs) or_word = reading (record { ors = some (closed f e); ands = none }) fs
read (after f e fs) close_paren = leave fs (closed f e)
read (after f e fs) open_paren = odd
read (after f e fs) (call t) = failed
read failed t = failed
read odd t = odd

abbrev pub read_all : Reader → List Token → Reader
read_all r [] = r
read_all r (t ∷ ts) = read_all (read r t) ts
