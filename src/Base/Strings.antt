-- ===== src/Base/Strings.antt =====
-- Go strings as lists of bytes, and maps keyed by them (Go maps and Redis keyspaces) as functions.
use Prim.Native.Nat.{ℕ}
use Prim.Native.Char.{code}
use Prim.Native.String.{String}
use mathlib.Core.Path.{◌≡◌, refl}
use mathlib.Core.Logic.{◌↔◌, ◌≢◌}
use mathlib.Core.Bool.{Bool, true, false, ◌&&◌}
use mathlib.Core.List.{List, [], ◌∷◌, ◌++◌}
use native.Mathlib.Omega.{arith}
use mathlib.Core.Option.{Option, none, some}
use zhiguang_go.Base.Tests.{◌==◌, if◌then◌else◌}
use zhiguang_go.Base.Lists.{All}

abbrev pub Bytes : Type 0
Bytes = List ℕ

-- the bytes of an ASCII literal
abbrev pub codes : String → Bytes
codes String.[] = []
codes (String.◌∷◌ c s) = code c ∷ codes s

-- Go's `==` on strings
unfoldable pub bytes_eq : Bytes → Bytes → Bool
bytes_eq [] [] = true
bytes_eq [] (y ∷ ys) = false
bytes_eq (x ∷ xs) [] = false
bytes_eq (x ∷ xs) (y ∷ ys) = (x == y) && bytes_eq xs ys

pub bytes_eq_iff : (xs ys : Bytes) → (bytes_eq xs ys ≡ true) ↔ (xs ≡ ys)
unfolding bytes_eq
bytes_eq_iff [] [] = (λ _. refl, λ _. refl)
bytes_eq_iff [] (y ∷ ys) = (λ h. cc, λ h. cc)
bytes_eq_iff (x ∷ xs) [] = (λ h. cc, λ h. cc)
bytes_eq_iff (x ∷ xs) (y ∷ ys) =
    (λ h. ground (arith, bytes_eq_iff xs ys), λ h. ground (arith, bytes_eq_iff xs ys))

pub bytes_eq_refl : (xs : Bytes) → bytes_eq xs xs ≡ true
bytes_eq_refl xs = (bytes_eq_iff xs xs).1 refl

pub bytes_eq_ne : (xs ys : Bytes) → xs ≢ ys → bytes_eq xs ys ≡ false
bytes_eq_ne xs ys h = ground (arith, bytes_eq_iff xs ys)

module _ {ℓ} {V : Type ℓ} where
  -- `m[k] = v`
  unfoldable pub update : (Bytes → V) → Bytes → V → Bytes → V
  update m k v j = if bytes_eq k j then v else m j

  pub update_self : (m : Bytes → V) (k : Bytes) (v : V) → update m k v k ≡ v
  unfolding update
  update_self m k v = rw (bytes_eq_refl k)

  pub update_ne : (m : Bytes → V) (k j : Bytes) (v : V) → k ≢ j → update m k v j ≡ m j
  unfolding update
  update_ne m k j v h = rw (bytes_eq_ne k j h)

  pub update_lem :
      (m : Bytes → V) (k j : Bytes) (v : V) → update m k v j ≡ (if bytes_eq k j then v else m j)
  unfolding update
  update_lem m k j v = refl

pub append-cancel : (p xs ys : Bytes) → p ++ xs ≡ p ++ ys → xs ≡ ys
append-cancel [] xs ys h = h
append-cancel (x ∷ p) xs ys h = append-cancel p xs ys (ground arith)

-- no byte of the text is `b`
abbrev pub Lacks : ℕ → Bytes → Type 0
Lacks b = All (λ c. c ≢ b)

extend : ℕ → Option (Bytes × Bytes) → Option (Bytes × Bytes)
extend c none = none
extend c (some (before, after)) = some (c ∷ before, after)

-- strings.Cut at a one-byte separator
unfoldable pub cut : ℕ → Bytes → Option (Bytes × Bytes)
unfolding extend
cut sep [] = none
cut sep (c ∷ s) = let rest = cut sep s in if c == sep then some ([], s) else extend c rest

pub cut_lem :
    (sep : ℕ) (before after : Bytes)
    → Lacks sep before
    → cut sep (before ++ sep ∷ after) ≡ some (before, after)
unfolding cut
cut_lem sep [] after h = ground arith
cut_lem sep (c ∷ before) after h = ground (arith, cut_lem sep before after h.1)

extend_inverse :
    (c sep : ℕ) (s before after : Bytes) (r : Option (Bytes × Bytes))
    → ((b a : Bytes) → r ≡ some (b, a) → s ≡ b ++ sep ∷ a)
    → (if c == sep then some ([], s) else extend c r) ≡ some (before, after)
    → c ∷ s ≡ before ++ sep ∷ after
unfolding extend
extend_inverse c sep s before after none ih k = ground arith
extend_inverse c sep s before after (some (b, a)) ih k = ground (arith, ih b a)

pub cut-append :
    (sep : ℕ) (s before after : Bytes)
    → cut sep s ≡ some (before, after)
    → s ≡ before ++ sep ∷ after
unfolding cut
cut-append sep [] before after h = cc
cut-append sep (c ∷ s) before after h =
    extend_inverse c sep s before after (cut sep s) (λ b a e. cut-append sep s b a e) h
