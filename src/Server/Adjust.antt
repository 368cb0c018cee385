-- ===== src/Server/Adjust.antt =====
-- What `adjustSlices` drops, and slices as the bytes that they hold together.
use learn_tars.Base.{
  ℕ, zero, suc, ◌+◌, ◌-◌, ◌≡◌, ◌≤◌, ◌<◌, refl, sym, ap, ◌∙◌, Bool, true, false, ◌&&◌, List, [], ◌∷◌,
  ◌++◌, append_assoc, length, take, drop, ltb, some, arith, dec_le, drop_append_le, drop_past,
  ℕ_discrete, le→leb, lt→leb_false, lt→ltb, ne→==_false, take-append-drop, drop_all, length-drop,
}
use learn_tars.Server.Slices.{Slice, flatten, no_empty, adjust_slices}

and_both : (a b : Bool) → (a && b) ≡ true → (a ≡ true) × (b ≡ true)
and_both true true e = (refl, refl)
and_both true false e = cc
and_both false b e = cc

module _ (s : Slice) (ss : List Slice) (n : ℕ) (p : ltb 0 (length s) ≡ true) where
  skip_step : length s ≤ n → adjust_slices (s ∷ ss) n ≡ adjust_slices ss (n - length s)
  unfolding adjust_slices
  skip_step l = rw (p, le→leb (length s) n l) refl

  keep_step : n < length s → adjust_slices (s ∷ ss) n ≡ some (drop n s ∷ ss)
  unfolding adjust_slices
  keep_step l = elim (ℕ_discrete n 0) [
    | yes z ↦ rw (p, lt→leb_false n (length s) l, z) refl
    | no z ↦ rw (p, lt→leb_false n (length s) l, ne→==_false n 0 z) refl
  ]

-- `adjustSlices` drops the first bytes of what the slices hold together, and leaves no empty slice.
pub adjust_slices_lem :
    (ss : List Slice) (n : ℕ)
    → no_empty ss ≡ true
    → (rest : List Slice) × (adjust_slices ss n ≡ some rest)
      × (flatten rest ≡ drop n (flatten ss))
      × (no_empty rest ≡ true)
unfolding adjust_slices no_empty
adjust_slices_lem [] n e = ([], refl, sym (drop_all n [] (omega arith)), refl)
adjust_slices_lem (s ∷ ss) n e =
    let (p, q) = and_both (ltb 0 (length s)) (no_empty ss) e in
    elim (dec_le (length s) n) [
      | yes l ↦
          let (rest, a, f, r) = adjust_slices_lem ss (n - length s) q in
          let k : length s + (n - length s) ≡ n = omega arith in
          (
            rest,
            skip_step s ss n p l ∙ a,
            f
                ∙ sym (drop_past s (flatten ss) (n - length s))
                ∙ ap (λ i. drop i (s ++ flatten ss)) k,
            r,
          )
      | no l ↦
          let m : n < length s = omega arith in
          let d = length-drop n s in
          (
            drop n s ∷ ss,
            keep_step s ss n p m,
            sym (drop_append_le n s (flatten ss) (omega arith)),
            rw (lt→ltb 0 (length (drop n s)) (omega (arith, d))) q,
          )
    ]

pub flatten-append : (ss ts : List Slice) → flatten (ss ++ ts) ≡ flatten ss ++ flatten ts
flatten-append [] ts = refl
flatten-append (s ∷ ss) ts =
    ap (λ x. s ++ x) (flatten-append ss ts) ∙ sym (append_assoc s (flatten ss) (flatten ts))

pub flatten-take-drop :
    (n : ℕ) (ss : List Slice) → flatten ss ≡ flatten (take n ss) ++ flatten (drop n ss)
flatten-take-drop n ss =
    sym (ap flatten (take-append-drop n ss)) ∙ flatten-append (take n ss) (drop n ss)

pub no_empty-take : (n : ℕ) (ss : List Slice) → no_empty ss ≡ true → no_empty (take n ss) ≡ true
unfolding no_empty
no_empty-take zero ss e = refl
no_empty-take (suc n) [] e = refl
no_empty-take (suc n) (s ∷ ss) e =
    let (p, q) = and_both (ltb 0 (length s)) (no_empty ss) e in rw p (no_empty-take n ss q)

pub no_empty-drop : (n : ℕ) (ss : List Slice) → no_empty ss ≡ true → no_empty (drop n ss) ≡ true
unfolding no_empty
no_empty-drop zero ss e = e
no_empty-drop (suc n) [] e = refl
no_empty-drop (suc n) (s ∷ ss) e =
    no_empty-drop n ss (and_both (ltb 0 (length s)) (no_empty ss) e).1

pub take_past : (xs ys : List ℕ) (n : ℕ) → take (length xs + n) (xs ++ ys) ≡ xs ++ take n ys
take_past [] ys n = let e : 0 + n ≡ n = omega arith in rw e refl
take_past (x ∷ xs) ys n =
    let e : suc (length xs) + n ≡ suc (length xs + n) = omega arith in
    rw e (ap (λ zs. x ∷ zs) (take_past xs ys n))
