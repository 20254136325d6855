-- ===== src/Store/Run.antt =====
-- Histories of the control store: calls of its methods in any order, at any times, with any failures of
-- the driver. The methods lock nothing else, since the store has one connection.
pub mod Rules
use ubi_quic_e_xtreme_zero_t.Prelude.{Text, ℤ, ℕ, List, [], ◌∷◌}
use ubi_quic_e_xtreme_zero_t.Sql.{World, ◌>>=◌, ◌>>◌}
use ubi_quic_e_xtreme_zero_t.Envelope.{Envelope, Blob, ControlFrame}
use ubi_quic_e_xtreme_zero_t.Store.Rows.{Db}
use ubi_quic_e_xtreme_zero_t.Store.{
  publish, claim, mark_received, settle, requeue_expired, state_of, enqueue_outbox, next_outbox,
  mark_outbox_delivered,
}

pub data Op : Type 0 where
  publishes : Envelope → Op
  claims : Text → ℤ → Op
  receives settles : ControlFrame → Op
  requeues : Op
  reads_state : Text → Op
  enqueues : Text → Text → Blob → ℕ → Op
  reads_outbox : Op
  delivers : ℕ → Op

unfoldable pub step : World Db → ℕ × Op → World Db
step w (now, publishes env) = (publish env now w).1
step w (now, claims worker lease) = (claim worker lease now w).1
step w (now, receives f) = (mark_received f now w).1
step w (now, settles f) = (settle f now w).1
step w (now, requeues) = (requeue_expired now w).1
step w (now, reads_state id) = (state_of id w).1
step w (now, enqueues id transport payload available) =
    (enqueue_outbox id transport payload available w).1
step w (now, reads_outbox) = (next_outbox now w).1
step w (now, delivers seq) = (mark_outbox_delivered seq now w).1

unfoldable pub run : World Db → List (ℕ × Op) → World Db
run w [] = w
run w (c ∷ cs) = run (step w c) cs
