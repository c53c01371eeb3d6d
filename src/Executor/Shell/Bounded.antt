-- ===== src/Executor/Shell/Bounded.antt =====
-- executor.go: `boundedOutput` against the whole output that was written to it.
use mathlib.Core.List.{append-nil, append_assoc}
use seagull_agent.Prelude.{
  ℕ, zero, suc, ◌+◌, ◌-◌, ◌≤◌, ◌<◌, ◌⊎◌, pos, sub_ℕ, ◌≡◌, refl, ap, sym, ◌∙◌, Bool, true, false,
  inl, inr, List, [], ◌∷◌, ◌++◌, length, length-append, ltb, leb, arith, Bool-cases, ltb_ℤ, ◌||◌,
  if◌then◌else◌,
}
use seagull_agent.Executor.Shell.{
  BoundedOutput, take, writable, write_up_to, write, output_text, max_shell_output_bytes,
  truncated_mark,
}

-- What is kept of an output, and whether all of it is.
abbrev pub bounded : ℕ → List ℕ → BoundedOutput
bounded max seen = record { buffer = take max seen; truncated = ltb max (length seen) }

abbrev min : ℕ → ℕ → ℕ
min a b = if leb a b then a else b

length-take : (n : ℕ) (l : List ℕ) → length (take n l) ≡ min n (length l)
unfolding take
length-take zero l = ground arith
length-take (suc n) [] = ground arith
length-take (suc n) (b ∷ l) = ground (arith, length-take n l)

take-append_room : (n k : ℕ) (l m : List ℕ) → length l + k ≡ n → take n (l ++ m) ≡ l ++ take k m
unfolding take
take-append_room n k [] m h = (let same : k ≡ n = omega (arith, h) in rw same refl)
take-append_room zero k (b ∷ l) m h = ground arith
take-append_room (suc n) k (b ∷ l) m h =
    ap (λ t. b ∷ t) (take-append_room n k l m (omega (arith, h)))

take-append_full : (n : ℕ) (l m : List ℕ) → n ≤ length l → take n (l ++ m) ≡ take n l
unfolding take
take-append_full zero l m h = refl
take-append_full (suc n) [] m h = absurd (omega (arith, h))
take-append_full (suc n) (b ∷ l) m h = ap (λ t. b ∷ t) (take-append_full n l m (omega (arith, h)))

take_all : (n : ℕ) (l : List ℕ) → length l ≤ n → take n l ≡ l
unfolding take
take_all zero [] h = refl
take_all zero (b ∷ l) h = absurd (omega (arith, h))
take_all (suc n) [] h = refl
take_all (suc n) (b ∷ l) h = ap (λ t. b ∷ t) (take_all n l (omega (arith, h)))

room :
    (k size : ℕ)
    → ((size < k) × (writable (pos k) size ≡ pos size))
      ⊎ ((k ≤ size) × (writable (pos k) size ≡ pos k))
unfolding writable
room k size = elim (Bool-cases (ltb size k)) [
  | inl less ↦ inl (ground arith, ground arith)
  | inr more ↦ inr (ground arith, ground arith)
]

sub-pos : (max n : ℕ) → n ≤ max → sub_ℕ max n ≡ pos (max - n)
sub-pos max n h = ground arith

same_output :
    (l m : List ℕ) (s t : Bool)
    → l ≡ m
    → s ≡ t
    → ◌≡◌ {A = BoundedOutput}
        (record { buffer = l; truncated = s })
        (record { buffer = m; truncated = t })
same_output l m s t h k = cc

kept :
    (n : ℕ) (buffer bytes : List ℕ)
    → (if ltb_ℤ (pos 0) (pos n) then buffer ++ take n bytes else buffer) ≡ buffer ++ take n bytes
unfolding take
kept zero buffer bytes = sym (append-nil buffer)
kept (suc n) buffer bytes = ground arith

fits : (m n size : ℕ) → size < m - n → ltb_ℤ (pos size) (pos size) ≡ ltb m (n + size)
fits m n size h = ground arith

spills : (m n size : ℕ) → n ≤ m → ltb_ℤ (pos (m - n)) (pos size) ≡ ltb m (n + size)
spills m n size h = ground arith

write_room :
    (max : ℕ) (bytes buffer : List ℕ) (t : Bool)
    → length buffer ≤ max
    → write_up_to max bytes (record { buffer = buffer; truncated = t }) ≡ record {
      buffer = take max (buffer ++ bytes);
      truncated = t || ltb max (length buffer + length bytes);
    }
unfolding write_up_to
write_room max bytes buffer t h = elim (room (max - length buffer) (length bytes)) [
  | inl (less, all) ↦
      rw (sub-pos max (length buffer) h, all, kept)
        (same_output _ _ _ _
          (ap (λ l. buffer ++ l) (take_all (length bytes) bytes (omega arith))
            ∙ sym (
                take-append_room max (max - length buffer) buffer bytes (omega (arith, h))
                ∙ ap (λ l. buffer ++ l)
                    (take_all (max - length buffer) bytes (omega (arith, less)))))
          (ap (λ b. t || b) (fits max (length buffer) (length bytes) less)))
  | inr (more, part) ↦
      rw (sub-pos max (length buffer) h, part, kept)
        (same_output _ _ _ _
          (sym (take-append_room max (max - length buffer) buffer bytes (omega (arith, h))))
          (ap (λ b. t || b) (spills max (length buffer) (length bytes) h)))
]

write_up_to-bounded :
    (max : ℕ) (seen bytes : List ℕ)
    → write_up_to max bytes (bounded max seen) ≡ bounded max (seen ++ bytes)
write_up_to-bounded max seen bytes = elim (Bool-cases (leb (length seen) max)) [
  | inl within ↦
      let less : length seen ≤ max = ground arith in
      let not_cut : ltb max (length seen) ≡ false = ground arith in
      rw (take_all max seen less, not_cut)
        (write_room max bytes seen false less
          ∙ same_output _ _ _ _ refl (ap (λ n. ltb max n) (sym (length-append seen bytes))))
  | inr over ↦
      let more : max ≤ length seen = ground arith in
      let cut : ltb max (length seen) ≡ true = ground arith in
      let size : length (take max seen) ≡ max = length-take max seen ∙ ground arith in
      rw cut (
        write_room max bytes (take max seen) true (omega (arith, size))
        ∙ same_output _ _ _ _
            (take-append_full max (take max seen) bytes (omega (arith, size))
              ∙ (take_all max (take max seen) (omega (arith, size))
                  ∙ sym (take-append_full max seen bytes more)))
            (ground (arith, length-append seen bytes)))
]

-- All the writes to an output, from an empty buffer.
unfoldable pub write_all : List (List ℕ) → BoundedOutput → BoundedOutput
write_all [] b = b
write_all (bytes ∷ l) b = write_all l (write bytes b)

abbrev pub empty_output : BoundedOutput
empty_output = record { buffer = []; truncated = false }

abbrev pub concat : List (List ℕ) → List ℕ
concat [] = []
concat (bytes ∷ l) = bytes ++ concat l

write_all_seen :
    (l : List (List ℕ)) (seen : List ℕ)
    → write_all l (bounded max_shell_output_bytes seen)
      ≡ bounded max_shell_output_bytes (seen ++ concat l)
unfolding write_all write
write_all_seen [] seen = rw (append-nil seen) refl
write_all_seen (bytes ∷ l) seen =
    rw (write_up_to-bounded max_shell_output_bytes seen bytes, ← append_assoc seen bytes (concat l))
      (write_all_seen l (seen ++ bytes))

-- For every sequence of writes to a fresh output, its buffer is the first 1 MiB of all that was
-- written, and it is marked as truncated exactly if more than that was written.
pub write_all-bounded :
    (l : List (List ℕ)) → write_all l empty_output ≡ bounded max_shell_output_bytes (concat l)
unfolding take
write_all-bounded l = write_all_seen l []

-- The text of an output is at most 12 bytes longer than its bound.
pub output_text-le :
    (l : List (List ℕ))
    → length (output_text (write_all l empty_output)) ≤ max_shell_output_bytes + 12
unfolding output_text
output_text-le l = rw (write_all-bounded l) (
    ground (
      arith,
      length-append (take max_shell_output_bytes (concat l)) truncated_mark,
      length-take max_shell_output_bytes (concat l),
    ))
