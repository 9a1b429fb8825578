-- ===== src/Receiver/Reassembly/Shuffle.antt =====
-- src/read_write_loop.c, `read_write_loop`: packets that overtake each other within a few numbers.
use mathlib.Core.List.{append_assoc}
use trtp_network.Prelude.{
  false, Option, ℕ, zero, suc, ◌+◌, ◌-◌, ◌≡◌, refl, sym, ap, ◌∙◌, List, [], ◌∷◌, ◌++◌, none, some,
  arith, ltb, length,
}
use trtp_network.Receiver.Reassembly.{Window, window, slide, arrive, accept, reassemble}

-- The numbers from `n` on, in groups: one alone, two that are swapped, three of which the first is
-- late, the last is early or all are reversed, and four of which the first comes after the others,
-- which are in order. The other orders of four are left out, also those that the window takes.
pub data Shuffled : ℕ → List ℕ → Type 0 where
  over : {n : ℕ} → Shuffled n []
  in_order : {n : ℕ} {l : List ℕ} → Shuffled (n + 1) l → Shuffled n (n ∷ l)
  swapped : {n : ℕ} {l : List ℕ} → Shuffled (n + 2) l → Shuffled n ((n + 1) ∷ n ∷ l)
  first_late : {n : ℕ} {l : List ℕ} → Shuffled (n + 3) l → Shuffled n ((n + 1) ∷ (n + 2) ∷ n ∷ l)
  last_early : {n : ℕ} {l : List ℕ} → Shuffled (n + 3) l → Shuffled n ((n + 2) ∷ n ∷ (n + 1) ∷ l)
  reversed : {n : ℕ} {l : List ℕ} → Shuffled (n + 3) l → Shuffled n ((n + 2) ∷ (n + 1) ∷ n ∷ l)
  first_last :
      {n : ℕ} {l : List ℕ} → Shuffled (n + 4) l → Shuffled n ((n + 1) ∷ (n + 2) ∷ (n + 3) ∷ n ∷ l)

-- The payloads of `k` numbers from `n` on, in order.
abbrev pub span : (ℕ → List ℕ) → ℕ → ℕ → List ℕ
span content n zero = []
span content n (suc k) = content n ++ span content (n + 1) k

abbrev pub with_content : (ℕ → List ℕ) → List ℕ → List (ℕ × List ℕ)
with_content content [] = []
with_content content (i ∷ l) = (i, content i) ∷ with_content content l

accept-at :
    (n j i : ℕ) (b : List ℕ) (x y z : Option (List ℕ))
    → i ≡ n + j
    → accept (window n x y z) i b ≡ arrive j n b x y z
unfolding accept
accept-at n j i b x y z e = rw (e, not_old n j, difference n j)
  where
    not_old : (n j : ℕ) → ltb (n + j) n ≡ false
    not_old n j = ground arith

    difference : (n j : ℕ) → n + j - n ≡ j
    difference n j = omega arith

module _ (c : ℕ → List ℕ) where
  abbrev empty : ℕ → Window
  empty n = window n none none none

  two_on : (n : ℕ) → n + 1 + 1 ≡ n + 2
  two_on n = omega arith

  three_on : (n : ℕ) → n + 2 + 1 ≡ n + 3
  three_on n = omega arith

  four_on : (n : ℕ) → n + 3 + 1 ≡ n + 4
  four_on n = omega arith

  three_after : (n : ℕ) → n + 1 + 2 ≡ n + 3
  three_after n = omega arith

  abbrev Ends : ℕ → ℕ → ℕ → List ℕ → Type 0
  Ends n k m out =
      ◌≡◌ {A = Option (Window × List ℕ)} (some (empty m, out)) (some (empty (n + k), span c n k))

  ends : (n k m : ℕ) (out : List ℕ) → m ≡ n + k → out ≡ span c n k → Ends n k m out
  ends n k m out e h = λ i. some (empty (e i), h i)

  span-two : (n k : ℕ) → (c n ++ c (n + 1)) ++ span c (n + 2) k ≡ span c n (suc (suc k))
  span-two n k = rw (two_on n) (append_assoc (c n) (c (n + 1)) (span c (n + 2) k))

  span-three :
      (n k : ℕ)
      → (c n ++ (c (n + 1) ++ c (n + 2))) ++ span c (n + 3) k ≡ span c n (suc (suc (suc k)))
  span-three n k =
      rw (two_on n, three_on n)
        (append_assoc (c n) (c (n + 1) ++ c (n + 2)) (span c (n + 3) k)
          ∙ ap (λ l. c n ++ l) (append_assoc (c (n + 1)) (c (n + 2)) (span c (n + 3) k)))

  span-one_two :
      (n k : ℕ)
      → c n ++ ((c (n + 1) ++ c (n + 2)) ++ span c (n + 3) k) ≡ span c n (suc (suc (suc k)))
  span-one_two n k =
      sym (append_assoc (c n) (c (n + 1) ++ c (n + 2)) (span c (n + 3) k)) ∙ span-three n k

  span-four :
      (n k : ℕ)
      → (c n ++ (c (n + 1) ++ (c (n + 2) ++ c (n + 3)))) ++ span c (n + 4) k
        ≡ span c n (suc (suc (suc (suc k))))
  span-four n k =
      rw (two_on n, three_on n, four_on n)
        (append_assoc (c n) (c (n + 1) ++ (c (n + 2) ++ c (n + 3))) (span c (n + 4) k)
          ∙ ap (λ l. c n ++ l)
              (append_assoc (c (n + 1)) (c (n + 2) ++ c (n + 3)) (span c (n + 4) k)
                ∙ ap (λ l. c (n + 1) ++ l)
                    (append_assoc (c (n + 2)) (c (n + 3)) (span c (n + 4) k))))

  -- The abstract window takes them, and puts out the payloads in the order of their numbers.
  pub reassemble-Shuffled :
      (n : ℕ) (l : List ℕ)
      → Shuffled n l
      → reassemble (empty n) (with_content c l) ≡ some (empty (n + length l), span c n (length l))
  unfolding arrive slide reassemble
  reassemble-Shuffled n _ over = ends n 0 n [] (omega arith) refl
  reassemble-Shuffled n _ (in_order {l = l} s) =
      rw (accept-at n 0 n (c n) none none none (omega arith)) (
        rw (reassemble-Shuffled (n + 1) l s) (
          ends n (suc (length l)) (n + 1 + length l) (span c n (suc (length l))) (omega arith)
            refl))
  reassemble-Shuffled n _ (swapped {l = l} s) =
      rw (accept-at n 1 (n + 1) (c (n + 1)) none none none refl) (
        rw (accept-at n 0 n (c n) (some (c (n + 1))) none none (omega arith)) (
          rw (reassemble-Shuffled (n + 2) l s) (
            ends n (suc (suc (length l))) (n + 2 + length l)
              ((c n ++ c (n + 1)) ++ span c (n + 2) (length l)) (omega arith)
              (span-two n (length l)))))
  reassemble-Shuffled n _ (first_late {l = l} s) =
      rw (accept-at n 1 (n + 1) (c (n + 1)) none none none refl) (
        rw (accept-at n 2 (n + 2) (c (n + 2)) (some (c (n + 1))) none none refl) (
          rw (accept-at n 0 n (c n) (some (c (n + 1))) (some (c (n + 2))) none (omega arith)) (
            rw (reassemble-Shuffled (n + 3) l s) (
              ends n (suc (suc (suc (length l)))) (n + 3 + length l)
                ((c n ++ (c (n + 1) ++ c (n + 2))) ++ span c (n + 3) (length l)) (omega arith)
                (span-three n (length l))))))
  reassemble-Shuffled n _ (last_early {l = l} s) =
      rw (accept-at n 2 (n + 2) (c (n + 2)) none none none refl) (
        rw (accept-at n 0 n (c n) none (some (c (n + 2))) none (omega arith)) (
          rw (accept-at (n + 1) 0 (n + 1) (c (n + 1)) (some (c (n + 2))) none none (omega arith)) (
            rw (three_after n) (
              rw (reassemble-Shuffled (n + 3) l s) (
                ends n (suc (suc (suc (length l)))) (n + 3 + length l)
                  (c n ++ ((c (n + 1) ++ c (n + 2)) ++ span c (n + 3) (length l))) (omega arith)
                  (span-one_two n (length l)))))))
  reassemble-Shuffled n _ (reversed {l = l} s) =
      rw (accept-at n 2 (n + 2) (c (n + 2)) none none none refl) (
        rw (accept-at n 1 (n + 1) (c (n + 1)) none (some (c (n + 2))) none refl) (
          rw (accept-at n 0 n (c n) (some (c (n + 1))) (some (c (n + 2))) none (omega arith)) (
            rw (reassemble-Shuffled (n + 3) l s) (
              ends n (suc (suc (suc (length l)))) (n + 3 + length l)
                ((c n ++ (c (n + 1) ++ c (n + 2))) ++ span c (n + 3) (length l)) (omega arith)
                (span-three n (length l))))))
  reassemble-Shuffled n _ (first_last {l = l} s) =
      rw (accept-at n 1 (n + 1) (c (n + 1)) none none none refl) (
        rw (accept-at n 2 (n + 2) (c (n + 2)) (some (c (n + 1))) none none refl) (
          rw (accept-at n 3 (n + 3) (c (n + 3)) (some (c (n + 1))) (some (c (n + 2))) none refl) (
            rw
              (accept-at n 0 n (c n) (some (c (n + 1))) (some (c (n + 2))) (some (c (n + 3)))
                (omega arith))
              (rw (reassemble-Shuffled (n + 4) l s) (
                ends n (suc (suc (suc (suc (length l))))) (n + 4 + length l)
                  ((c n ++ (c (n + 1) ++ (c (n + 2) ++ c (n + 3)))) ++ span c (n + 4) (length l))
                  (omega arith) (span-four n (length l)))))))
