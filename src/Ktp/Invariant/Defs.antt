-- ===== src/Ktp/Invariant/Defs.antt =====
-- What holds of every socket of the shared array between two critical sections.
use networks_lab_cs39006_spr.Prelude.{◌<◌, ◌≡◌, List}
use networks_lab_cs39006_spr.Ktp.Types.{Window, KtpSocket, Action, seq_num}
use networks_lab_cs39006_spr.Ktp.Receiver.{Outcome, running, exited, hung}
use networks_lab_cs39006_spr.Ktp.Buffers.{IsBuffer, occupied}

pub record IsWindow (w : Window) : Type 0 where
  pub head_in : w.head < seq_num
  pub tail_in : w.tail < seq_num
  pub size_in : w.size < seq_num

-- The buffers are well formed, the receive buffer counts exactly its slots in use, and every
-- sequence number is below 256.
pub record IsSocket (s : KtpSocket) : Type 0 where
  pub send : IsBuffer s.send_buffer
  pub recv : IsBuffer s.recv_buffer
  pub exact : occupied s.recv_buffer.isempty ≡ s.recv_buffer.filled
  pub swnd_in : IsWindow s.swnd
  pub rwnd_in : IsWindow s.rwnd
  pub acked_in : s.last_acked < seq_num

-- What a thread's step leaves is a well-formed socket, where it goes on at all.
abbrev pub Keeps {ℓ} : {A : Type ℓ} → (A → Type 0) → Outcome A → Type 0
Keeps P (running a) = P a
Keeps P exited = Unit
Keeps P hung = Unit

abbrev pub Sound : Outcome (KtpSocket × List Action) → Type 0
Sound = Keeps (λ r. IsSocket r.0)
