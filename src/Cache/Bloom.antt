-- ===== src/Cache/Bloom.antt =====
-- internal/cache/bloom.go: the client of a filter that a module of Redis keeps, with WarmDetailBloom of
-- internal/knowpost/detail_service.go. The module is a parameter. The texts of the errors with which
-- calls fail are inputs.
pub mod FailOpen
pub mod Gaps
pub mod Tests
use zhiguang_go.Base.{
  ℕ, ◌+◌, Bool, true, false, not, ◌&&◌, ◌||◌, Option, none, some, List, [], ◌∷◌, map, leb, ◌==◌,
  if◌then◌else◌, Bytes, codes, bytes_eq,
}
use zhiguang_go.Base.Int.{ℤ, eq_ℤ, pos}
use zhiguang_go.Base.Decimal.{format_uint}

-- The ASCII part of strings.ToLower.
abbrev lower_byte : ℕ → ℕ
lower_byte b = if leb 65 b && leb b 90 then b + 32 else b

unfoldable pub to_lower : Bytes → Bytes
to_lower s = map lower_byte s

unfoldable pub has_prefix : Bytes → Bytes → Bool
has_prefix s [] = true
has_prefix [] (c ∷ p) = false
has_prefix (b ∷ s) (c ∷ p) = (b == c) && has_prefix s p

-- strings.Contains
unfoldable pub contains_text : Bytes → Bytes → Bool
unfolding has_prefix
contains_text [] p = has_prefix [] p
contains_text (b ∷ s) p = has_prefix (b ∷ s) p || contains_text s p

unfoldable pub is_unknown_command_err : Bytes → Bool
unfolding contains_text to_lower
is_unknown_command_err e =
    contains_text (to_lower e) (codes "unknown command")
    || contains_text (to_lower e) (codes "err unknown command")

unfoldable pub is_already_exists_err : Bytes → Bool
unfolding contains_text to_lower
is_already_exists_err e =
    contains_text (to_lower e) (codes "item exists")
    || (contains_text (to_lower e) (codes "already exists")
        || contains_text (to_lower e) (codes "busykey"))

-- The error redis.Nil has the text of the second test.
unfoldable pub is_not_exist_err : Bytes → Bool
unfolding contains_text to_lower
is_not_exist_err e =
    contains_text (to_lower e) (codes "not found")
    || (contains_text (to_lower e) (codes "does not exist") || bytes_eq e (codes "redis: nil"))

-- The answers of CF.EXISTS that redisTruthy reads.
pub data Answer : Type 0 where
  bool_answer : Bool → Answer
  int_answer : ℤ → Answer
  text_answer : Bytes → Answer

unfoldable pub redis_truthy : Answer → Bool
unfolding to_lower
redis_truthy (bool_answer b) = b
redis_truthy (int_answer n) = not (eq_ℤ n (pos 0))
redis_truthy (text_answer s) = bytes_eq s (codes "1") || bytes_eq (to_lower s) (codes "true")

-- The commands of the module on a filter: CF.RESERVE, CF.ADD, CF.DEL and CF.EXISTS.
pub record Filter (F : Type 0) : Type 0 where
  pub reserved : F
  pub cf_add : F → Bytes → F
  pub cf_del : F → Bytes → F
  pub cf_exists : F → Bytes → Answer

-- The state of RedisBloom.
pub record Client : Type 0 where
  pub ensured : Bool
  pub module_ok : Bool
  pub module_fail : Bool

-- The errors of the calls that one operation makes, if any, and the members that other processes have
-- added to a key that they made between two calls.
pub record Errors : Type 0 where
  pub exists_key : Option Bytes
  pub raced : List Bytes
  pub reserve : Option Bytes
  pub command : Option Bytes

pub mark_module_error : Bytes → Client → Client
mark_module_error e c = if is_unknown_command_err e then record c { module_fail = true } else c

abbrev pub ready : Client → Client
ready c = record c { ensured = true; module_ok = true }

module _ {F : Type 0} (cf : Filter F) where
  -- The client, and the filter if Redis has its key.
  abbrev pub World : Type 0
  World = Client × Option F

  pub add_members : List Bytes → F → F
  add_members [] f = f
  add_members (m ∷ ms) f = add_members ms (cf.cf_add f m)

  -- A key that exists already is one that another process has made since EXISTS, with the members
  -- `raced` that it has added.
  pub reserve_key : List Bytes → Option Bytes → Client → Bool × World
  unfolding mark_module_error add_members
  reserve_key raced none c = (true, (ready c, some cf.reserved))
  reserve_key raced (some e) c =
      if is_already_exists_err e
      then (true, (ready c, some (add_members raced cf.reserved)))
      else (false, (mark_module_error e c, none))

  pub look_up : Errors → Option Bytes → World → Bool × World
  unfolding reserve_key mark_module_error
  look_up x (some e) (c, s) = (false, (mark_module_error e c, s))
  look_up x none (c, some f) = (true, (ready c, some f))
  look_up x none (c, none) = reserve_key x.raced x.reserve c

  -- ensureReady
  unfoldable pub ensure_ready : Errors → World → Bool × World
  unfolding look_up
  ensure_ready x (c, s) =
      if c.module_fail
      then (false, (c, s))
      else if c.ensured && c.module_ok
      then (true, (c, s))
      else look_up x x.exists_key (c, s)

  -- CF.ADD makes the key if it is missing.
  pub add_to : Option F → Bytes → Option F
  add_to none member = some (cf.cf_add cf.reserved member)
  add_to (some f) member = some (cf.cf_add f member)

  pub add_ready : Option Bytes → Bytes → Bool × World → World
  unfolding add_to mark_module_error
  add_ready e member (false, w) = w
  add_ready none member (true, (c, s)) = (c, add_to s member)
  add_ready (some e) member (true, (c, s)) = (mark_module_error e c, s)

  -- Add
  unfoldable pub add : Errors → Bytes → World → World
  unfolding add_ready ensure_ready
  add x [] w = w
  add x (b ∷ m) w = add_ready x.command (b ∷ m) (ensure_ready x w)

  pub delete_from : Option F → Bytes → Option F
  delete_from none member = none
  delete_from (some f) member = some (cf.cf_del f member)

  pub delete_ready : Option Bytes → Bytes → Bool × World → World
  unfolding mark_module_error delete_from
  delete_ready e member (false, w) = w
  delete_ready none member (true, (c, s)) = (c, delete_from s member)
  delete_ready (some e) member (true, (c, s)) =
      if is_not_exist_err e then (c, s) else (mark_module_error e c, s)

  -- Delete
  unfoldable pub delete : Errors → Bytes → World → World
  unfolding delete_ready ensure_ready
  delete x [] w = w
  delete x (b ∷ m) w = delete_ready x.command (b ∷ m) (ensure_ready x w)

  abbrev pub is_key : Option F → Bool
  is_key none = false
  is_key (some f) = true

  abbrev pub failed : Option Bytes → Bool
  failed none = false
  failed (some e) = true

  -- IsWarm
  unfoldable pub is_warm : Errors → World → Bool
  is_warm x (c, s) = not c.module_fail && (not (failed x.exists_key) && is_key s)

  -- CF.EXISTS says of a missing key that it has no member.
  pub has : Option F → Bytes → Bool
  has none member = false
  has (some f) member = redis_truthy (cf.cf_exists f member)

  pub ask : Option Bytes → Bytes → World → (Bool × Option Bytes) × World
  unfolding has mark_module_error
  ask none member (c, s) = ((has s member, none), (c, s))
  ask (some e) member (c, s) = ((true, some e), (mark_module_error e c, s))

  -- MightContain
  unfoldable pub might_contain : Errors → Bytes → World → (Bool × Option Bytes) × World
  unfolding ask is_warm
  might_contain x [] w = ((true, none), w)
  might_contain x (b ∷ m) w =
      if w.0.module_fail || not (is_warm x w) then ((true, none), w) else ask x.command (b ∷ m) w

  -- AddUint64
  unfoldable pub add_uint64 : Errors → ℕ → World → World
  unfolding add
  add_uint64 x id w = add x (format_uint id) w

  -- WarmDetailBloom, over the ids that the repository lists
  unfoldable pub warm_detail_bloom : List (ℕ × Errors) → World → World
  unfolding add_uint64
  warm_detail_bloom [] w = w
  warm_detail_bloom ((id, x) ∷ ids) w = warm_detail_bloom ids (add_uint64 x id w)
