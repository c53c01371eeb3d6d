-- ===== src/TopK/Counts.antt =====
-- `Add` of internal/collectors/ddos/topk.go, the size of the table, and the sum of its counts.
use seagull_agent.Assoc.{
  has, find, without, IsMap, has-without, without-IsMap, length-without, find-eq-none, find-eq-some,
}
use seagull_agent.Prelude.{
  ℕ, ◌+◌, ◌≤◌, ◌<◌, ℤ, pos, pos_part, ltb_ℤ, leb_ℤ, eq_ℤ, eq_ℤ_iff, ◌≡◌, refl, inl, inr, true,
  false, ◌||◌, some, List, [], ◌∷◌, arith, ltb, if◌then◌else◌, length, Bool-cases, Option-cases,
}
use seagull_agent.TopK.{TopK, smallest, replace, add_count, add}

unfoldable pub sum_counts : List (ℤ × ℕ) → ℕ
sum_counts [] = 0
sum_counts ((k, v) ∷ l) = v + sum_counts l

pub record IsValid (t : TopK) : Type 0 where
  pub positive : 0 < t.k
  pub bounded : length t.items ≤ t.k
  pub one_each : IsMap t.items

absent-without : (k : ℤ) (l : List (ℤ × ℕ)) → has k l ≡ false → without k l ≡ l
unfolding has without
absent-without k [] h = refl
absent-without k ((i, v) ∷ l) h = ground (arith, absent-without k l)

sum_counts-without :
    (k : ℤ) (l : List (ℤ × ℕ)) (v : ℕ)
    → IsMap l
    → find k l ≡ some v
    → sum_counts (without k l) + v ≡ sum_counts l
unfolding find without sum_counts
sum_counts-without k [] v m h = cc
sum_counts-without k ((i, w) ∷ l) v m h = elim (Bool-cases (eq_ℤ i k)) [
  | inl same ↦
      let there : some w ≡ some v = rw same at h in
      let e : w ≡ v = cc in
      let gone : has k l ≡ false = rw (← (eq_ℤ_iff i k).0 same) (m.0) in
      rw (same, absent-without k l gone) (omega (arith, e))
  | inr other ↦ rw other (omega (arith, sum_counts-without k l v (m.1) (rw other at h)))
]

-- An entry of the rest is found behind a key that the rest has not.
found_later :
    (r key : ℤ) (c count : ℕ) (l : List (ℤ × ℕ))
    → has key l ≡ false
    → find r l ≡ some c
    → find r ((key, count) ∷ l) ≡ some c
unfolding find
found_later r key c count l other h = elim (Bool-cases (eq_ℤ key r)) [
  | inl same ↦
      let there : has key l ≡ true = rw ((eq_ℤ_iff key r).0 same) (find-eq-some r l c h) in
      absurd (cc (other, there))
  | inr differs ↦ rw differs h
]

-- An entry of a list with one entry more.
found_behind :
    (r key k : ℤ) (c count v : ℕ) (l : List (ℤ × ℕ))
    → has k l ≡ false
    → find r ((key, count) ∷ l) ≡ some c
    → find r ((key, count) ∷ (k, v) ∷ l) ≡ some c
unfolding find
found_behind r key k c count v l fresh h = elim (Bool-cases (eq_ℤ key r)) [
  | inl same ↦ rw same (rw same at h)
  | inr differs ↦ rw differs (found_later r k c v l fresh (rw differs at h))
]

smallest_step :
    (key k : ℤ) (count v : ℕ) (l : List (ℤ × ℕ))
    → smallest (key, count) ((k, v) ∷ l)
      ≡ (if ltb v count then smallest (k, v) l else smallest (key, count) l)
unfolding smallest
smallest_step key k count v l = refl

alone : (key : ℤ) (count : ℕ) → find key ((key, count) ∷ []) ≡ some count
unfolding find
alone key count = rw ((eq_ℤ_iff key key).1 refl)

apart : (key k : ℤ) (v : ℕ) (l : List (ℤ × ℕ)) → has key ((k, v) ∷ l) ≡ false → has key l ≡ false
unfolding has
apart key k v l h = ground (arith)

-- The smallest entry is one of the list.
find-smallest :
    (key : ℤ) (count : ℕ) (l : List (ℤ × ℕ))
    → IsMap ((key, count) ∷ l)
    → find (smallest (key, count) l).0 ((key, count) ∷ l) ≡ some (smallest (key, count) l).1
find-smallest key count [] m = unfold smallest in alone key count
find-smallest key count ((k, v) ∷ l) m = elim (Bool-cases (ltb v count)) [
  | inl less ↦
      let best = smallest (k, v) l in
      rw (smallest_step key k count v l, less)
        (found_later best.0 key best.1 count ((k, v) ∷ l) (m.0) (find-smallest k v l (m.1)))
  | inr more ↦
      let best = smallest (key, count) l in
      rw (smallest_step key k count v l, more)
        (found_behind best.0 key k best.1 count v l (m.1.0)
          (find-smallest key count l (apart key k v l (m.0), m.1.1)))
]

-- A list of entries after a key was given `n` more.
record Gained (n limit : ℕ) (l l' : List (ℤ × ℕ)) : Type 0 where
  fits : length l' ≤ limit
  one_each : IsMap l'
  gained : sum_counts l' ≡ sum_counts l + n

-- An entry goes, and its count passes to a key that the rest has not.
takes_over :
    (key old : ℤ) (n count limit : ℕ) (l : List (ℤ × ℕ))
    → IsMap l
    → length l ≤ limit
    → find old l ≡ some count
    → has key (without old l) ≡ false
    → Gained n limit l ((key, count + n) ∷ without old l)
unfolding sum_counts
takes_over key old n count limit l m small found fresh =
    let there : has old l ≡ true = find-eq-some old l count found in
    let shorter : length (without old l) + 1 ≡ length l = rw there at (length-without old l m) in
    record {
      fits = omega (arith, shorter, small);
      one_each = (fresh, without-IsMap old l m);
      gained = omega (arith, sum_counts-without old l count m found);
    }

replace-Gained :
    (key : ℤ) (n limit : ℕ) (l : List (ℤ × ℕ))
    → 0 < limit
    → length l ≤ limit
    → IsMap l
    → has key l ≡ false
    → Gained n limit l (replace key n l)
unfolding replace
replace-Gained key n limit [] some_room small m fresh = record {
  fits = omega (arith, some_room);
  one_each = (fresh, tt);
  gained = unfold sum_counts in omega arith;
}
replace-Gained key n limit ((k, v) ∷ l) some_room small m fresh =
    let best = smallest (k, v) l in
    takes_over key best.0 n best.1 limit ((k, v) ∷ l) m small (find-smallest k v l m)
      (rw (has-without key best.0 ((k, v) ∷ l), fresh) (ground arith))

add_count-Gained :
    (key : ℤ) (n : ℕ) (t : TopK) → IsValid t → Gained n t.k t.items (add_count key n t).items
unfolding add_count
add_count-Gained key n t v = elim (Option-cases (find key t.items)) [
  | inr (count, found) ↦
      rw (found, add_count)
        (takes_over key key n count t.k t.items v.one_each v.bounded found
          (rw (has-without key key t.items, (eq_ℤ_iff key key).1 refl)))
  | inl missing ↦
      let fresh : has key t.items ≡ false = find-eq-none key t.items missing in
      elim (Bool-cases (ltb (length t.items) t.k)) [
        | inl room ↦
            rw (missing, add_count, room)
              (record {
                fits = ground arith;
                one_each = (fresh, v.one_each);
                gained = unfold sum_counts in omega arith;
              })
        | inr full ↦
            rw (missing, add_count, full)
              (replace-Gained key n t.k t.items v.positive v.bounded v.one_each fresh)
      ]
]

k-add_count : (key : ℤ) (n : ℕ) (t : TopK) → (add_count key n t).k ≡ t.k
unfolding add_count
k-add_count key n t = ground arith

-- Add keeps the table well formed, with at most k entries, one for each key, and its counts sum up
-- to the increments that were added: replacing an entry loses none of them.
pub add-IsValid :
    (key inc : ℤ) (t : TopK)
    → IsValid t
    → IsValid (add key inc t)
      × (sum_counts (add key inc t).items
          ≡ (if ltb_ℤ key (pos 0) || leb_ℤ inc (pos 0) then 0 else pos_part inc)
            + sum_counts t.items)
unfolding add
add-IsValid key inc t v = elim (Bool-cases (ltb_ℤ key (pos 0) || leb_ℤ inc (pos 0))) [
  | inl refused ↦ rw refused (v, omega arith)
  | inr taken ↦
      let n = pos_part inc in
      let g = add_count-Gained key n t v in
      rw taken (
        record {
          positive = rw (k-add_count key n t) v.positive;
          bounded = rw (k-add_count key n t) g.fits;
          one_each = g.one_each;
        },
        omega (arith, g.gained),
      )
]
