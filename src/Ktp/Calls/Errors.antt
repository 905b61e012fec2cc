-- ===== src/Ktp/Calls/Errors.antt =====
-- The error paths of the calls on a descriptor.
use networks_lab_cs39006_spr.Prelude.{
  ℕ, ◌≡◌, refl, none, some, List, Option-cases, inl, inr, if_elim, set, get_elem?, set-get_elem?,
  ◌==◌, ap, ◌∙◌, ◌||◌,
}
use networks_lab_cs39006_spr.Ktp.Types.{
  ℤ, pos, negsuc, Result, ok, err, fault, IpPort, KtpSocket, SmData, message_len, max_message,
}
use networks_lab_cs39006_spr.Ktp.Socket.{
  socket_at, with_socket, check_socket_validity, sendto_socket, recvfrom_socket, bind_socket,
  close_socket, k_sendto, k_recvfrom, k_bind, k_close, slot_empty, same_address,
}

with_socket-none {ℓ} :
    {A : Type ℓ} (fd : ℤ) (body : KtpSocket → Result A × KtpSocket) (shm : SmData)
    → socket_at fd shm ≡ none
    → with_socket fd body shm ≡ (fault, shm)
unfolding with_socket
with_socket-none fd body shm e = rw (e, with_socket)

-- On a descriptor that names no entry of the array, sending 512 bytes, receiving, binding and
-- closing all read outside the array before the descriptor is checked.
pub calls-fault :
    (fd : ℤ) (m : List ℕ) (len : ℕ) (src dest : IpPort) (shm : SmData)
    → socket_at fd shm ≡ none
    → (k_sendto fd m message_len dest shm ≡ (fault, shm))
      × (k_recvfrom fd len shm ≡ (fault, shm))
      × (k_bind fd src dest shm ≡ (fault, shm))
      × (k_close fd shm ≡ (fault, shm))
unfolding k_sendto k_recvfrom k_bind k_close
calls-fault fd m len src dest shm e = (
  with_socket-none fd (sendto_socket m message_len dest) shm e,
  with_socket-none fd (recvfrom_socket len) shm e,
  with_socket-none fd (bind_socket src dest) shm e,
  with_socket-none fd close_socket shm e,
)

-- An error leaves the socket alone.
abbrev Unchanged {ℓ} : {A : Type ℓ} → KtpSocket → Result A × KtpSocket → Type 0
Unchanged s (ok a, s') = Unit
Unchanged s (err e, s') = s' ≡ s
Unchanged s (fault, s') = s' ≡ s

abbrev pub Same {ℓ} : {A : Type ℓ} → SmData → Result A × SmData → Type 0
Same shm (ok a, shm') = Unit
Same shm (err e, shm') = shm' ≡ shm
Same shm (fault, shm') = shm' ≡ shm

sendto_socket-Unchanged :
    (m : List ℕ) (len : ℕ) (addr : IpPort) (s : KtpSocket)
    → Unchanged s (sendto_socket m len addr s)
unfolding sendto_socket
sendto_socket-Unchanged m len addr s =
    if_elim (Unchanged s) (same_address s.dest addr) _ _
      (if_elim (Unchanged s) (s.send_buffer.filled == max_message) _ _ refl tt) refl

recvfrom_socket-Unchanged : (len : ℕ) (s : KtpSocket) → Unchanged s (recvfrom_socket len s)
unfolding recvfrom_socket
recvfrom_socket-Unchanged len s =
    if_elim (Unchanged s)
      ((s.recv_buffer.filled == 0) || slot_empty s.recv_buffer s.recv_buffer.iter) _ _ refl tt

put_back {ℓ} :
    {A : Type ℓ} (i : ℕ) (s : KtpSocket) (shm : SmData) (r : Result A) (s' : KtpSocket)
    → get_elem? shm i ≡ some s
    → Unchanged s (r, s')
    → Same shm (r, set shm i s')
put_back i s shm (ok a) s' e h = tt
put_back i s shm (err x) s' e h = ap (set shm i) h ∙ set-get_elem? shm i s e
put_back i s shm fault s' e h = ap (set shm i) h ∙ set-get_elem? shm i s e

with_socket-Same {ℓ} :
    {A : Type ℓ} (fd : ℤ) (body : KtpSocket → Result A × KtpSocket) (shm : SmData)
    → ((s : KtpSocket) → Unchanged s (body s))
    → Same shm (with_socket fd body shm)
unfolding with_socket
with_socket-Same {A} (negsuc n) body shm h = refl
with_socket-Same {A} (pos i) body shm h = elim (Option-cases (get_elem? shm i)) [
  | inl e ↦ rw (e, with_socket) refl
  | inr (s, e) ↦
      rw (e, with_socket)
        (if_elim {A = Result A × SmData} (Same shm) (check_socket_validity (pos i) shm) _ _
          (put_back i s shm (body s).0 (body s).1 e (h s)) refl)
]

-- A call to send or to receive that fails leaves the shared array as it was.
pub calls_atomic :
    (fd : ℤ) (m : List ℕ) (len : ℕ) (addr : IpPort) (shm : SmData)
    → Same shm (k_sendto fd m len addr shm) × Same shm (k_recvfrom fd len shm)
unfolding k_sendto k_recvfrom
calls_atomic fd m len addr shm = (
  if_elim {A = Result ℕ × SmData} (Same shm) (len == message_len) _ _
      (with_socket-Same fd (sendto_socket m len addr) shm (sendto_socket-Unchanged m len addr))
      refl,
  with_socket-Same fd (recvfrom_socket len) shm (recvfrom_socket-Unchanged len),
)
