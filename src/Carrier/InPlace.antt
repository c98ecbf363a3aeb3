-- ===== src/Carrier/InPlace.antt =====
-- Set of internal/kafka/carrier.go as it runs: the filtered slice shares the array that the loop
-- reads, and each append writes into it.
use mathlib.Core.List.{append_assoc, append-nil}
use go_task_flow.Carrier.{HeaderCarrier, header, filtered, set}
use go_task_flow.World.{Header}
use go_task_flow.Prelude.{
  ℕ, zero, suc, ◌+◌, String, ◌≡◌, refl, sym, ◌∙◌, ap, Option, none, some, List, [], ◌∷◌, ◌++◌,
  length, length-append, arith, str_eq, true, false, if◌then◌else◌, inl, inr, Bool-cases,
}

-- The element at an index.
unfoldable pub read_at : ℕ → List Header → Option Header
read_at i [] = none
read_at zero (x ∷ xs) = some x
read_at (suc i) (x ∷ xs) = read_at i xs

unfoldable pub write_at : ℕ → Header → List Header → List Header
write_at i h [] = []
write_at zero h (x ∷ xs) = h ∷ xs
write_at (suc i) h (x ∷ xs) = x ∷ write_at i h xs

unfoldable pub take : ℕ → List Header → List Header
take zero xs = []
take (suc n) [] = []
take (suc n) (x ∷ xs) = x ∷ take n xs

module _ (key : String) where
  -- The loop from index i with n headers kept, for the rounds that are left: the array and the
  -- length of the filtered slice.
  unfoldable pub filter_loop : ℕ → ℕ → ℕ → List Header → ℕ × List Header
  filter_loop zero i n array = (n, array)
  filter_loop (suc k) i n array = elim (read_at i array) [
    | none ↦ (n, array)
    | some h ↦
        if str_eq h.key key
        then filter_loop k (i + 1) n array
        else filter_loop k (i + 1) (n + 1) (write_at n h array)
  ]

-- The last append writes behind the filtered headers, in the array or in a new one.
unfoldable pub set_in_place : HeaderCarrier → String → String → HeaderCarrier
set_in_place c key value =
    let (n, array) = filter_loop key (length c) 0 0 c in take n array ++ header key value ∷ []

read-append :
    (xs : List Header) (h : Header) (rest : List Header)
    → read_at (length xs) (xs ++ h ∷ rest) ≡ some h
unfolding read_at
read-append [] h rest = refl
read-append (x ∷ xs) h rest = read-append xs h rest

write-append :
    (xs : List Header) (h j : Header) (rest : List Header)
    → write_at (length xs) h (xs ++ j ∷ rest) ≡ xs ++ h ∷ rest
unfolding write_at
write-append [] h j rest = refl
write-append (x ∷ xs) h j rest = ap (λ r. x ∷ r) (write-append xs h j rest)

take-append : (xs rest : List Header) → take (length xs) (xs ++ rest) ≡ xs
unfolding take
take-append [] rest = refl
take-append (x ∷ xs) rest = ap (λ r. x ∷ r) (take-append xs rest)

-- One more element at the end of the front of a list.
shift :
    (xs : List Header) (h : Header) (rest : List Header) → xs ++ h ∷ rest ≡ (xs ++ h ∷ []) ++ rest
shift [] h rest = refl
shift (x ∷ xs) h rest = ap (λ r. x ∷ r) (shift xs h rest)

length-shift : (xs : List Header) (h : Header) → length (xs ++ h ∷ []) ≡ length xs + 1
length-shift [] h = refl
length-shift (x ∷ xs) h = omega (arith, length-shift xs h)

module _ (key : String) where
  skipped :
      (k i n : ℕ) (array : List Header) (h : Header)
      → read_at i array ≡ some h
      → str_eq h.key key ≡ true
      → filter_loop key (suc k) i n array ≡ filter_loop key k (i + 1) n array
  unfolding filter_loop
  skipped k i n array h found same = ground (arith, found, same)

  kept :
      (k i n : ℕ) (array : List Header) (h : Header)
      → read_at i array ≡ some h
      → str_eq h.key key ≡ false
      → filter_loop key (suc k) i n array ≡ filter_loop key k (i + 1) (n + 1) (write_at n h array)
  unfolding filter_loop
  kept k i n array h found other = ground (arith, found, other)

  -- A header that is kept takes the place of the first header that was left behind, or its own.
  written_over :
      (done junk rest : List Header) (h : Header)
      → (junk' : List Header) × (write_at (length done) h ((done ++ junk) ++ h ∷ rest)
          ≡ ((done ++ h ∷ []) ++ junk') ++ rest)
        × (length junk' ≡ length junk)
  written_over done [] rest h = (
    [],
    rw (append-nil done, append-nil (done ++ h ∷ []), sym (shift done h rest))
        (write-append done h h rest),
    refl,
  )
  written_over done (j ∷ js) rest h = (
    js ++ h ∷ [],
    ap (write_at (length done) h) (append_assoc done (j ∷ js) (h ∷ rest))
        ∙ write-append done h j (js ++ h ∷ rest)
        ∙ shift done h (js ++ h ∷ rest)
        ∙ ap (λ r. (done ++ h ∷ []) ++ r) (shift js h rest)
        ∙ sym (append_assoc (done ++ h ∷ []) (js ++ h ∷ []) rest),
    omega (arith, length-shift js h),
  )

  -- The array in front of a round: the headers that were kept, what they have left of the headers
  -- that were read, and the headers that are still to be read.
  loop-filtered :
      (rest done junk : List Header) (i n : ℕ) (array : List Header)
      → i ≡ length done + length junk
      → n ≡ length done
      → array ≡ (done ++ junk) ++ rest
      → let r = filter_loop key (length rest) i n array in take r.0 r.1 ≡ done ++ filtered rest key
  unfolding filter_loop filtered
  loop-filtered [] done junk i n array at_i at_n here =
      ap (λ m. take m array) at_n
      ∙ ap (take (length done)) (here ∙ append_assoc done junk [])
      ∙ take-append done (junk ++ [])
      ∙ sym (append-nil done)
  loop-filtered (h ∷ rest) done junk i n array at_i at_n here =
      let found : read_at i array ≡ some h =
        ap (λ m. read_at m array) (at_i ∙ sym (length-append done junk))
        ∙ ap (read_at (length (done ++ junk))) here
        ∙ read-append (done ++ junk) h rest in
      elim (Bool-cases (str_eq h.key key)) [
        | inl same ↦
            ap (λ r. take r.0 r.1) (skipped (length rest) i n array h found same)
            ∙ loop-filtered rest done (junk ++ h ∷ []) (i + 1) n array
                (omega (arith, at_i, length-shift junk h)) at_n
                (here
                  ∙ shift (done ++ junk) h rest
                  ∙ ap (λ r. r ++ rest) (append_assoc done junk (h ∷ [])))
            ∙ ap (λ r. done ++ r) (rw same refl)
        | inr other ↦
            let (junk', w, len) = written_over done junk rest h in
            ap (λ r. take r.0 r.1) (kept (length rest) i n array h found other)
            ∙ loop-filtered rest (done ++ h ∷ []) junk' (i + 1) (n + 1) (write_at n h array)
                (omega (arith, at_i, len, length-shift done h))
                (omega (arith, at_n, length-shift done h))
                (ap (λ m. write_at m h array) at_n ∙ ap (write_at (length done) h) here ∙ w)
            ∙ sym (shift done h (filtered rest key))
            ∙ ap (λ r. done ++ r) (rw other refl)
      ]

-- Set, which filters into the array that it reads and may so overwrite headers that it has read,
-- answers what a copy of the headers of other keys with the new header behind them would be.
pub set_in_place-set :
    (c : HeaderCarrier) (key value : String) → set_in_place c key value ≡ set c key value
unfolding set_in_place set
set_in_place-set c key value =
    ap (λ r. r ++ header key value ∷ []) (loop-filtered key c [] [] 0 0 c refl refl refl)
