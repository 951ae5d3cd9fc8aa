-- ===== src/Mailbox/Ring.antt =====
-- The ring of a run in extension/src/comms/mailbox.ts as the end of a list.
use pi_better_subagents.Prelude.{
  ℕ, zero, suc, Bool-cases, inl, inr, ◌+◌, ◌-◌, ◌≤◌, ◌≡◌, refl, sym, ap, ◌∙◌, List, [], ◌∷◌, ◌++◌,
  String, length, length-append, length-drop, drop, min, ltb, arith,
}
use pi_better_subagents.Mailbox.{MailboxEntry, push_ring, set_answer}

-- The last `n` elements.
abbrev pub last_n {ℓ} : {A : Type ℓ} → ℕ → List A → List A
last_n n xs = drop (length xs - n) xs

module _ {ℓ} {A : Type ℓ} where
  drop-append : (k : ℕ) (xs ys : List A) → k ≤ length xs → drop k (xs ++ ys) ≡ drop k xs ++ ys
  drop-append zero xs ys h = refl
  drop-append (suc k) [] ys h = absurd (omega arith)
  drop-append (suc k) (x ∷ xs) ys h = drop-append k xs ys (omega arith)

  drop-nil : (k : ℕ) → drop {A = A} k [] ≡ []
  drop-nil zero = refl
  drop-nil (suc k) = refl

  drop-drop : (j k : ℕ) (xs : List A) → drop j (drop k xs) ≡ drop (k + j) xs
  drop-drop j zero xs = ap (λ (n : ℕ). drop n xs) {x = j} {y = 0 + j} (omega arith)
  drop-drop j (suc k) [] = drop-nil j ∙ sym (drop-nil (suc k + j))
  drop-drop j (suc k) (x ∷ xs) =
      drop-drop j k xs
      ∙ ap (λ (n : ℕ). drop n (x ∷ xs)) {x = suc (k + j)} {y = suc k + j} (omega arith)

  pub drop_all : (n : ℕ) (xs : List A) → length xs ≤ n → drop n xs ≡ []
  drop_all n [] h = drop-nil n
  drop_all zero (x ∷ xs) h = absurd (omega arith)
  drop_all (suc n) (x ∷ xs) h = drop_all n xs (omega arith)

  -- Keeping the last entries can be put off.
  pub last_n-snoc :
      (n : ℕ) (xs : List A) (x : A) → last_n n (last_n n xs ++ x ∷ []) ≡ last_n n (xs ++ x ∷ [])
  last_n-snoc n xs x =
      ap (last_n n) (sym (drop-append (length xs - n) xs (x ∷ []) (omega arith)))
      ∙ drop-drop _ (length xs - n) (xs ++ x ∷ [])
      ∙ ap (λ (k : ℕ). drop k (xs ++ x ∷ []))
          (omega (arith, length-drop (length xs - n) (xs ++ x ∷ []), length-append xs (x ∷ [])))

  pub last_n-last_n : (m n : ℕ) (xs : List A) → last_n m (last_n n xs) ≡ last_n (min m n) xs
  last_n-last_n m n xs =
      drop-drop _ (length xs - n) xs
      ∙ ap (λ (k : ℕ). drop k xs) (omega (arith, length-drop (length xs - n) xs))

  pub length-last_n : (n : ℕ) (xs : List A) → length (last_n n xs) ≡ min n (length xs)
  length-last_n n xs = omega (arith, length-drop (length xs - n) xs)

pub push_ring-last_n :
    (capacity : ℕ) (ring : List MailboxEntry) (entry : MailboxEntry)
    → push_ring capacity ring entry ≡ last_n capacity (ring ++ entry ∷ [])
unfolding push_ring
push_ring-last_n capacity ring entry =
    elim (Bool-cases (ltb capacity (length (ring ++ entry ∷ [])))) [
      | inl over ↦ rw over
      | inr fits ↦ rw fits (
          ap (λ (k : ℕ). drop k (ring ++ entry ∷ []))
            (let le : length (ring ++ entry ∷ []) ≤ capacity = ground arith in
              let z : 0 ≡ length (ring ++ entry ∷ []) - capacity = omega arith in z))
    ]

length-set_answer :
    (ref : ℕ) (text : String) (es : List MailboxEntry) → length (set_answer ref text es) ≡ length es
unfolding set_answer
length-set_answer ref text [] = refl
length-set_answer ref text (e ∷ es) = ground (arith, length-set_answer ref text es)

drop-set_answer :
    (k ref : ℕ) (text : String) (es : List MailboxEntry)
    → drop k (set_answer ref text es) ≡ set_answer ref text (drop k es)
unfolding set_answer
drop-set_answer zero ref text es = refl
drop-set_answer (suc k) ref text [] = refl
drop-set_answer (suc k) ref text (e ∷ es) = ground (arith, drop-set_answer k ref text es)

-- A reply shows in the entries that the ring keeps.
pub last_n-set_answer :
    (n ref : ℕ) (text : String) (es : List MailboxEntry)
    → set_answer ref text (last_n n es) ≡ last_n n (set_answer ref text es)
last_n-set_answer n ref text es =
    sym (drop-set_answer (length es - n) ref text es)
    ∙ ap (λ (k : ℕ). drop (k - n) (set_answer ref text es)) (sym (length-set_answer ref text es))
