-- ===== src/Outbox/Order.antt =====
-- Sequence numbers of db/outbox_writer.py by aggregate.
use Prim.Native.Nat.{max}
use novaapi.Common.{
  ℕ, ◌+◌, ◌≡◌, refl, Option, none, List, [], ◌∷◌, ◌++◌, Eq, length, arith, if◌then◌else◌,
  Bool-cases, inl, inr, ap,
}
use novaapi.Outbox.{OutboxEvent, last_sequence, append_event}

-- n + 1, n + 2, ... up to the end of the list.
abbrev pub CountsFrom : ℕ → List ℕ → Type 0
CountsFrom n [] = Unit
CountsFrom n (x ∷ xs) = (x ≡ n + 1) × CountsFrom (n + 1) xs

abbrev top : List ℕ → ℕ
top [] = 0
top (x ∷ xs) = max x (top xs)

top_of_counts : (n : ℕ) (xs : List ℕ) → CountsFrom n xs → max n (top xs) ≡ n + length xs
top_of_counts n [] h = omega arith
top_of_counts n (x ∷ xs) h = omega (arith, top_of_counts (n + 1) xs h.1)

CountsFrom-append :
    (n : ℕ) (xs : List ℕ) (y : ℕ)
    → CountsFrom n xs
    → y ≡ n + length xs + 1
    → CountsFrom n (xs ++ y ∷ [])
CountsFrom-append n [] y h e = (omega arith, tt)
CountsFrom-append n (x ∷ xs) y h e = (h.0, CountsFrom-append (n + 1) xs y h.1 (omega arith))

module _ {ℓ} {K E : Type ℓ} ⦃eq : Eq K⦄ where
  -- The numbers of the aggregate, in the order of the table.
  abbrev pub numbers : K → List (OutboxEvent K E) → List ℕ
  numbers k [] = []
  numbers k (x ∷ xs) =
      let rest = numbers k xs in if eq.beq x.aggregate k then x.sequence_number ∷ rest else rest

  -- Every aggregate is numbered 1, 2, 3, ...
  abbrev pub IsSequenced : List (OutboxEvent K E) → Type ℓ
  IsSequenced outbox = (k : K) → CountsFrom 0 (numbers k outbox)

  last_sequence-eq-top :
      (k : K) (xs : List (OutboxEvent K E)) → last_sequence k xs ≡ top (numbers k xs)
  unfolding last_sequence
  last_sequence-eq-top k [] = refl
  last_sequence-eq-top k (x ∷ xs) = elim (Bool-cases (eq.beq x.aggregate k)) [
    | inl h ↦ rw (h, last_sequence-eq-top k xs)
    | inr h ↦ rw (h, last_sequence-eq-top k xs)
  ]

  numbers-append :
      (k : K) (xs : List (OutboxEvent K E)) (x : OutboxEvent K E)
      → numbers k (xs ++ x ∷ [])
        ≡ (if eq.beq x.aggregate k then numbers k xs ++ x.sequence_number ∷ [] else numbers k xs)
  numbers-append k [] x = refl
  numbers-append k (y ∷ xs) x = elim (Bool-cases (eq.beq y.aggregate k)) [
    | inl h ↦ elim (Bool-cases (eq.beq x.aggregate k)) [
      | inl g ↦ rw (h, numbers-append k xs x, g)
      | inr g ↦ rw (h, numbers-append k xs x, g)
    ]
    | inr h ↦ rw (h, numbers-append k xs x)
  ]

  -- Where the sequence numbers of every aggregate are 1, 2, 3, ... in the order of the table, they are
  -- so after an append.
  pub append_event-IsSequenced :
      (k : K) (e : E) (tenant_id : Option ℕ) (now : ℕ) (outbox : List (OutboxEvent K E))
      → IsSequenced outbox
      → IsSequenced (append_event k e tenant_id now outbox)
  unfolding append_event
  append_event-IsSequenced k e tenant_id now outbox h j = elim (Bool-cases (eq.beq k j)) [
    | inl same ↦
        let x : OutboxEvent K E = record {
          aggregate = k;
          event = e;
          tenant_id = tenant_id;
          occurred_at = now;
          sequence_number = last_sequence k outbox + 1;
          relayed_at = none;
        } in
        let kj : k ≡ j = (eq.beq_iff k j).0 same in
        rw (numbers-append j outbox x, same)
          (CountsFrom-append 0 (numbers j outbox) x.sequence_number (h j) (
            omega (
              arith,
              ap (λ z. last_sequence z outbox) kj,
              last_sequence-eq-top j outbox,
              top_of_counts 0 (numbers j outbox) (h j),
            )))
    | inr other ↦
        rw
          (
            numbers-append j outbox (record {
              aggregate = k;
              event = e;
              tenant_id = tenant_id;
              occurred_at = now;
              sequence_number = last_sequence k outbox + 1;
              relayed_at = none;
            }),
            other,
          )
          (h j)
  ]
