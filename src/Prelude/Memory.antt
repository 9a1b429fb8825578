-- ===== src/Prelude/Memory.antt =====
-- C objects as lists of cells: reads and writes at an offset, `none` outside the object.
use Prim.Native.Nat.{ℕ, zero, suc, ◌+◌, ◌≤◌, ◌<◌}
use mathlib.Core.Path.{◌≡◌, refl, sym, ap, subst}
use mathlib.Core.List.{List, [], ◌∷◌, ◌++◌, append_assoc}
use mathlib.Core.Option
use mathlib.Core.Option.{Option, none, some, some-injective}
use native.Mathlib.Omega.{arith}
use trtp_network.Prelude.Lists.{length, take, drop, set}

module _ {ℓ} {A : Type ℓ} where
  -- Reads `n` cells from offset `off` on.
  unfoldable pub load : List A → ℕ → ℕ → Option (List A)
  load xs zero zero = some []
  load [] zero (suc n) = none
  load (x ∷ xs) zero (suc n) = Option.map (λ r. x ∷ r) (load xs zero n)
  load [] (suc off) n = none
  load (x ∷ xs) (suc off) n = load xs off n

  -- Writes the cells `ys` from offset `off` on.
  unfoldable pub store : List A → ℕ → List A → Option (List A)
  store xs zero [] = some xs
  store [] zero (y ∷ ys) = none
  store (x ∷ xs) zero (y ∷ ys) = Option.map (λ r. y ∷ r) (store xs zero ys)
  store [] (suc off) ys = none
  store (x ∷ xs) (suc off) ys = Option.map (λ r. x ∷ r) (store xs off ys)

  -- Writes one cell of an array.
  unfoldable pub put : List A → ℕ → A → Option (List A)
  put [] i v = none
  put (x ∷ xs) zero v = some (v ∷ xs)
  put (x ∷ xs) (suc i) v = Option.map (λ r. x ∷ r) (put xs i v)

  pub load-take : (xs : List A) (n : ℕ) → n ≤ length xs → load xs 0 n ≡ some (take n xs)
  unfolding load
  load-take xs zero h = refl
  load-take [] (suc n) h = absurd (omega arith)
  load-take (x ∷ xs) (suc n) h = ap (Option.map (λ r. x ∷ r)) (load-take xs n (omega arith))

  pub load-append : (xs ys : List A) (n : ℕ) → load (xs ++ ys) (length xs) n ≡ load ys 0 n
  unfolding load
  load-append [] ys n = refl
  load-append (x ∷ xs) ys n = load-append xs ys n

  pub load-all : (xs ys : List A) → load (xs ++ ys) 0 (length xs) ≡ some xs
  unfolding load
  load-all [] ys = refl
  load-all (x ∷ xs) ys = ap (Option.map (λ r. x ∷ r)) (load-all xs ys)

  pub store-drop :
      (xs ys : List A) → length ys ≤ length xs → store xs 0 ys ≡ some (ys ++ drop (length ys) xs)
  unfolding store
  store-drop xs [] h = refl
  store-drop [] (y ∷ ys) h = absurd (omega arith)
  store-drop (x ∷ xs) (y ∷ ys) h = ap (Option.map (λ r. y ∷ r)) (store-drop xs ys (omega arith))

  pub store-append :
      (xs zs ys : List A)
      → store (xs ++ zs) (length xs) ys ≡ Option.map (λ r. xs ++ r) (store zs 0 ys)
  unfolding store
  store-append [] zs ys = sym_map_id (store zs 0 ys)
    where
      sym_map_id : (o : Option (List A)) → o ≡ Option.map (λ r. r) o
      sym_map_id none = refl
      sym_map_id (some r) = refl
  store-append (x ∷ xs) zs ys = step (store zs 0 ys) (store-append xs zs ys)
    where
      step :
          (o : Option (List A)) {p : Option (List A)}
          → p ≡ Option.map (λ r. xs ++ r) o
          → Option.map (λ r. x ∷ r) p ≡ Option.map (λ r. x ∷ (xs ++ r)) o
      step none e = ap (Option.map (λ r. x ∷ r)) e
      step (some q) e = ap (Option.map (λ r. x ∷ r)) e

  pub load_self : (xs : List A) → load xs 0 (length xs) ≡ some xs
  unfolding load
  load_self [] = refl
  load_self (x ∷ xs) = ap (Option.map (λ r. x ∷ r)) (load_self xs)

  -- What stands behind `xs` is read and written at the offset `length xs`.
  pub load-behind :
      (xs ys zs : List A) {n m : ℕ}
      → length xs ≡ n
      → length ys ≡ m
      → load ((xs ++ ys) ++ zs) n m ≡ some ys
  load-behind xs ys zs e f =
      rw (← e, ← f, append_assoc xs ys zs, load-append xs (ys ++ zs)) (load-all ys zs)

  pub store-behind :
      (xs zs ys : List A) {n : ℕ}
      → length xs ≡ n
      → length ys ≤ length zs
      → store (xs ++ zs) n ys ≡ some ((xs ++ ys) ++ drop (length ys) zs)
  store-behind xs zs ys e h =
      rw (← e, store-append xs zs ys, store-drop zs ys h, append_assoc xs ys (drop (length ys) zs))

  pub put-set : (xs : List A) (i : ℕ) (v : A) → i < length xs → put xs i v ≡ some (set xs i v)
  unfolding put
  put-set [] i v h = elim h [ ]
  put-set (x ∷ xs) zero v h = refl
  put-set (x ∷ xs) (suc i) v h = ap (Option.map (λ r. x ∷ r)) (put-set xs i v (omega arith))

  -- A load past the end is a fault.
  pub load_past : (xs : List A) (off n : ℕ) → 0 < n → length xs < off + n → load xs off n ≡ none
  unfolding load
  load_past xs zero zero p h = absurd (omega arith)
  load_past [] zero (suc n) p h = refl
  load_past (x ∷ []) zero (suc zero) p h = absurd (omega arith)
  load_past (x ∷ []) zero (suc (suc n)) p h = refl
  load_past (x ∷ y ∷ xs) zero (suc zero) p h = absurd (omega arith)
  load_past (x ∷ y ∷ xs) zero (suc (suc n)) p h =
      ap (Option.map (λ r. x ∷ r)) (load_past (y ∷ xs) zero (suc n) (omega arith) (omega arith))
  load_past [] (suc off) n p h = refl
  load_past (x ∷ xs) (suc off) n p h = load_past xs off n p (omega arith)

  pub store_past :
      (xs : List A) (off : ℕ) (ys : List A)
      → 0 < length ys
      → length xs < off + length ys
      → store xs off ys ≡ none
  unfolding store
  store_past xs zero [] p h = absurd (omega arith)
  store_past [] zero (y ∷ ys) p h = refl
  store_past (x ∷ []) zero (y ∷ []) p h = absurd (omega arith)
  store_past (x ∷ []) zero (y ∷ w ∷ ys) p h = refl
  store_past (x ∷ v ∷ xs) zero (y ∷ []) p h = absurd (omega arith)
  store_past (x ∷ v ∷ xs) zero (y ∷ w ∷ ys) p h =
      ap (Option.map (λ r. y ∷ r)) (store_past (v ∷ xs) zero (w ∷ ys) (omega arith) (omega arith))
  store_past [] (suc off) ys p h = refl
  store_past (x ∷ xs) (suc off) ys p h =
      ap (Option.map (λ r. x ∷ r)) (store_past xs off ys p (omega arith))

  -- A load inside the object gives as many cells as it asks for.
  pub load-within :
      (xs : List A) (off n : ℕ)
      → off + n ≤ length xs
      → (ys : List A) × (load xs off n ≡ some ys) × (length ys ≡ n)
  unfolding load
  load-within xs zero zero h = ([], refl, refl)
  load-within [] zero (suc n) h = absurd (omega arith)
  load-within (x ∷ xs) zero (suc n) h =
      let (ys, e, l) = load-within xs zero n (omega arith) in
      (x ∷ ys, ap (Option.map (λ r. x ∷ r)) e, ap suc l)
  load-within [] (suc off) n h = absurd (omega arith)
  load-within (x ∷ xs) (suc off) n h = load-within xs off n (omega arith)

  map-length :
      (o : Option (List A)) (x : A) {r : List A} {n : ℕ}
      → ((q : List A) → o ≡ some q → length q ≡ n)
      → Option.map (λ q. x ∷ q) o ≡ some r
      → length r ≡ suc n
  map-length none x ih h = absurd (cc)
  map-length (some q) x {n = n} ih h =
      subst (λ t. length t ≡ suc n) (some-injective _ _ h) (ap suc (ih q refl))

  pub length-store :
      (xs : List A) (off : ℕ) (ys : List A) {r : List A}
      → store xs off ys ≡ some r
      → length r ≡ length xs
  unfolding store
  length-store xs zero [] h = ap length (sym (some-injective _ _ h))
  length-store [] zero (y ∷ ys) h = absurd (cc)
  length-store (x ∷ xs) zero (y ∷ ys) h =
      map-length (store xs zero ys) y (λ q e. length-store xs zero ys e) h
  length-store [] (suc off) ys h = absurd (cc)
  length-store (x ∷ xs) (suc off) ys h =
      map-length (store xs off ys) x (λ q e. length-store xs off ys e) h

  pub load-append-add :
      (xs ys : List A) (k n : ℕ) {off : ℕ}
      → off ≡ length xs + k
      → load (xs ++ ys) off n ≡ load ys k n
  unfolding load
  load-append-add [] ys k n {off} e = ap (λ o. load ys o n) (omega arith)
  load-append-add (x ∷ xs) ys k n {off = zero} e = absurd (omega arith)
  load-append-add (x ∷ xs) ys k n {off = suc off} e = load-append-add xs ys k n (omega arith)

  -- What a load reads is a part of the object.
  pub load-prefix :
      (xs : List A) (n : ℕ) {ys : List A}
      → load xs 0 n ≡ some ys
      → (rest : List A) × (xs ≡ ys ++ rest) × (length ys ≡ n)
  unfolding load
  load-prefix xs zero h =
      subst (λ ys. (rest : List A) × (xs ≡ ys ++ rest) × (length ys ≡ 0)) (some-injective _ _ h)
        (xs, refl, refl)
  load-prefix [] (suc n) h = absurd (cc)
  load-prefix (x ∷ xs) (suc n) h = step (load xs 0 n) (λ zs e. load-prefix xs n e) h
    where
      step :
          (o : Option (List A)) {ys : List A}
          → ((zs : List A) → o ≡ some zs → (rest : List A) × (xs ≡ zs ++ rest) × (length zs ≡ n))
          → Option.map (λ r. x ∷ r) o ≡ some ys
          → (rest : List A) × (x ∷ xs ≡ ys ++ rest) × (length ys ≡ suc n)
      step none ih h = absurd (cc)
      step (some zs) ih h =
          let (rest, e, l) = ih zs refl in
          subst (λ ys. (rest : List A) × (x ∷ xs ≡ ys ++ rest) × (length ys ≡ suc n))
            (some-injective _ _ h) (rest, ap (λ r. x ∷ r) e, ap suc l)
