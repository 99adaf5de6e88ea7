-- ===== src/Outbox.antt =====
-- db/outbox_writer.py and the table of db/outbox_models.py: events in the order in which they were
-- appended, numbered for each aggregate. `K` stands for the pair of aggregate type and id.
pub mod Order
use Prim.Native.Nat.{max}
use novaapi.Common.{ℕ, ◌+◌, Bool, Option, none, List, [], ◌∷◌, ◌++◌, Eq, if◌then◌else◌}

pub record OutboxEvent {ℓ} (K E : Type ℓ) : Type ℓ where
  pub aggregate : K
  pub event : E
  pub tenant_id : Option ℕ
  pub occurred_at : ℕ
  pub sequence_number : ℕ
  pub relayed_at : Option ℕ

module _ {ℓ} {K E : Type ℓ} ⦃eq : Eq K⦄ where
  -- `coalesce(max(sequence_number), 0)` over the rows of one aggregate.
  unfoldable pub last_sequence : K → List (OutboxEvent K E) → ℕ
  last_sequence k [] = 0
  last_sequence k (x ∷ xs) =
      let rest = last_sequence k xs in
      if eq.beq x.aggregate k then max x.sequence_number rest else rest

  unfoldable pub append_event :
      K → E → Option ℕ → ℕ → List (OutboxEvent K E) → List (OutboxEvent K E)
  append_event k e tenant_id now outbox =
      outbox
      ++ record {
        aggregate = k;
        event = e;
        tenant_id = tenant_id;
        occurred_at = now;
        sequence_number = last_sequence k outbox + 1;
        relayed_at = none;
      }
        ∷ []
