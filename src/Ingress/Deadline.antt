-- ===== src/Ingress/Deadline.antt =====
-- crates/domain/src/deadline.rs: the logical deadline of an interaction.
use aivtuber.Common.{ℕ, ◌-◌, ◌*◌, max, min, Bool, Option, none, some, leb, eqb, if◌then◌else◌}
use aivtuber.Common.Word.{saturating_add}

pub data InteractionDeadlineClass : Type 0 where
  high_priority strong_reaction conversation commentary background : InteractionDeadlineClass

pub record InteractionDeadline : Type 0 where
  pub class : InteractionDeadlineClass
  pub started_at_ms : ℕ
  pub expires_at_ms : ℕ

-- `InteractionDeadline::new`; the only error is an empty budget.
unfoldable pub new_deadline : InteractionDeadlineClass → ℕ → ℕ → Option InteractionDeadline
new_deadline class started budget =
    if eqb budget 0
    then none
    else some (record {
      class = class;
      started_at_ms = started;
      expires_at_ms = saturating_add started budget;
    })

unfoldable pub total_budget_ms : InteractionDeadline → ℕ
total_budget_ms d = d.expires_at_ms - d.started_at_ms

unfoldable pub remaining_ms : InteractionDeadline → ℕ → ℕ
remaining_ms d now = d.expires_at_ms - now

unfoldable pub is_expired : InteractionDeadline → ℕ → Bool
unfolding remaining_ms
is_expired d now = eqb (remaining_ms d now) 0

unfoldable pub admits : InteractionDeadline → ℕ → ℕ → Bool
unfolding remaining_ms
admits d now min_useful = leb (max min_useful 1) (remaining_ms d now)

-- `Duration` in nanoseconds, since the provider's maximum may be any `Duration`.
unfoldable pub effective_timeout : InteractionDeadline → ℕ → ℕ → Option ℕ
unfolding remaining_ms
effective_timeout d now provider_max_ns =
    let remaining_ns = remaining_ms d now * 1000000 in
    if eqb remaining_ns 0 then none else some (min remaining_ns provider_max_ns)
