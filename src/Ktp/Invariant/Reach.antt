-- ===== src/Ktp/Invariant/Reach.antt =====
-- Every step of the system keeps every socket of the array well formed, and so does its start.
use networks_lab_cs39006_spr.Prelude.{
  ℕ, suc, ◌≡◌, refl, List, [], ◌∷◌, Option, none, some, get_elem?, All, All-set, All-get_elem?,
  subst, some-injective, Option-cases, if_elim, ◌==◌, inl, inr,
}
use networks_lab_cs39006_spr.Ktp.Types.{
  ℤ, pos, negsuc, IpPort, KtpSocket, SmData, Action, Result, message_len,
}
use networks_lab_cs39006_spr.Ktp.Socket.{
  with_socket, check_socket_validity, k_sendto, k_recvfrom, k_bind, k_close, claim, sockreset,
}
use networks_lab_cs39006_spr.Ktp.Receiver.{Outcome, running}
use networks_lab_cs39006_spr.Ktp.Init.{init_sockets, open_fresh, after_fresh}
use networks_lab_cs39006_spr.Ktp.System.{
  Step, claims, sends, receives, binds, closes, rthread, sthread, collects, maintains, Reach, start,
  later,
}
use networks_lab_cs39006_spr.Ktp.Invariant.Defs.{IsSocket, Keeps}
use networks_lab_cs39006_spr.Ktp.Invariant.Calls.{
  sockreset-IsSocket, claim_socket-IsSocket, sendto_socket-IsSocket, recvfrom_socket-IsSocket,
  bind_socket-IsSocket, close_socket-IsSocket,
}
use networks_lab_cs39006_spr.Ktp.Invariant.Receive.{handle_ready-IsSocket}
use networks_lab_cs39006_spr.Ktp.Invariant.Send.{
  sthread_socket-IsSocket, gc_socket-IsSocket, main_socket-IsSocket,
}

abbrev pub IsShm : SmData → Type 0
IsShm = All IsSocket

-- What a fallible step leaves when it goes on.
Keeps-running {ℓ} :
    {A : Type ℓ} (P : A → Type 0) (o : Outcome A) (a : A) → Keeps P o → o ≡ running a → P a
Keeps-running P o a h e = subst (Keeps P) e h

with_socket-IsShm {ℓ} :
    {A : Type ℓ} (fd : ℤ) (body : KtpSocket → Result A × KtpSocket) (shm : SmData)
    → ((s : KtpSocket) → IsSocket s → IsSocket (body s).1)
    → IsShm shm
    → IsShm (with_socket fd body shm).1
unfolding with_socket
with_socket-IsShm (negsuc n) body shm keep h = h
with_socket-IsShm {A} (pos i) body shm keep h = elim (Option-cases (get_elem? shm i)) [
  | inl e ↦ rw (e, with_socket) h
  | inr (s, e) ↦
      rw (e, with_socket)
        (if_elim {A = Result A × SmData} (λ r. IsShm r.1) (check_socket_validity (pos i) shm) _ _
          (All-set IsSocket shm i (body s).1 (keep s (All-get_elem? IsSocket shm i h e)) h) h)
]

claim-IsShm : (pid i : ℕ) (shm : SmData) → IsShm shm → IsShm (claim pid i shm).0
unfolding claim
claim-IsShm pid i shm h = elim (Option-cases (get_elem? shm i)) [
  | inl e ↦ rw e h
  | inr (s, e) ↦ rw e (All-set IsSocket shm i _ (claim_socket-IsSocket pid s) h)
]

k_sendto-IsShm :
    (fd : ℤ) (m : List ℕ) (len : ℕ) (addr : IpPort) (shm : SmData)
    → IsShm shm
    → IsShm (k_sendto fd m len addr shm).1
unfolding k_sendto
k_sendto-IsShm fd m len addr shm h =
    if_elim {A = Result ℕ × SmData} (λ r. IsShm r.1) (len == message_len) _ _
      (with_socket-IsShm fd _ shm (λ s v. sendto_socket-IsSocket m len addr v) h) h

k_recvfrom-IsShm : (fd : ℤ) (len : ℕ) (shm : SmData) → IsShm shm → IsShm (k_recvfrom fd len shm).1
unfolding k_recvfrom
k_recvfrom-IsShm fd len shm h = with_socket-IsShm fd _ shm (λ s v. recvfrom_socket-IsSocket len v) h

k_bind-IsShm :
    (fd : ℤ) (src dest : IpPort) (shm : SmData) → IsShm shm → IsShm (k_bind fd src dest shm).1
unfolding k_bind
k_bind-IsShm fd src dest shm h =
    with_socket-IsShm fd _ shm (λ s v. bind_socket-IsSocket src dest v) h

k_close-IsShm : (fd : ℤ) (shm : SmData) → IsShm shm → IsShm (k_close fd shm).1
unfolding k_close
k_close-IsShm fd shm h = with_socket-IsShm fd _ shm (λ s v. close_socket-IsSocket v) h

Step-IsShm : {shm shm' : SmData} → Step shm shm' → IsShm shm → IsShm shm'
Step-IsShm {shm} (claims pid i) h = claim-IsShm pid i shm h
Step-IsShm {shm} (sends fd m len addr) h = k_sendto-IsShm fd m len addr shm h
Step-IsShm {shm} (receives fd len) h = k_recvfrom-IsShm fd len shm h
Step-IsShm {shm} (binds fd src dest) h = k_bind-IsShm fd src dest shm h
Step-IsShm {shm} (closes fd) h = k_close-IsShm fd shm h
Step-IsShm {shm} (rthread i rand r s s' actions e q) h =
    All-set IsSocket shm i s'
      (Keeps-running (λ p. IsSocket p.0) _ (s', actions)
        (handle_ready-IsSocket r rand (All-get_elem? IsSocket shm i h e)) q)
      h
Step-IsShm {shm} (sthread i now times times' s s' actions e q) h =
    All-set IsSocket shm i s'
      (Keeps-running (λ p. IsSocket p.0) _ (s', times', actions)
        (sthread_socket-IsSocket now times (All-get_elem? IsSocket shm i h e)) q)
      h
Step-IsShm {shm} (collects i alive s e) h =
    All-set IsSocket shm i _ (gc_socket-IsSocket alive (All-get_elem? IsSocket shm i h e)) h
Step-IsShm {shm} (maintains i supply s s' actions e q) h =
    All-set IsSocket shm i s'
      (Keeps-running (λ p. IsSocket p.0) _ (s', actions)
        (main_socket-IsSocket supply (All-get_elem? IsSocket shm i h e)) q)
      h

opened-IsSocket : (s : KtpSocket) (fd : ℤ) → IsSocket (record ((sockreset s).0) { sockfd = fd })
opened-IsSocket s fd =
    let v = sockreset-IsSocket s in
    record {
      send = v.send;
      recv = v.recv;
      exact = v.exact;
      swnd_in = v.swnd_in;
      rwnd_in = v.rwnd_in;
      acked_in = v.acked_in;
    }

-- One round of the loop, over what the rest of it gives.
init_step-IsShm :
    (s : KtpSocket) (new : Option ℕ) (rest : Option (SmData × List Action))
    → ((shm : SmData) (rest' : List Action) → rest ≡ some (shm, rest') → IsShm shm)
    → (shm : SmData) (actions : List Action)
    → after_fresh (open_fresh new (sockreset s)) rest ≡ some (shm, actions)
    → IsShm shm
unfolding open_fresh after_fresh
init_step-IsShm s none rest h shm actions e = cc
init_step-IsShm s (some fd) none h shm actions e = cc
init_step-IsShm s (some fd) (some (shm', rest')) h shm actions e =
    subst (λ r. IsShm r.0) (some-injective _ _ e) (opened-IsSocket s (pos fd), h shm' rest' refl)

init_sockets-IsShm :
    (i : ℕ) (new_fd : ℕ → Option ℕ) (old shm : SmData) (actions : List Action)
    → init_sockets i new_fd old ≡ some (shm, actions)
    → IsShm shm
unfolding init_sockets
init_sockets-IsShm i new_fd [] shm actions e = subst (λ r. IsShm r.0) (some-injective _ _ e) tt
init_sockets-IsShm i new_fd (s ∷ old) shm actions e =
    init_step-IsShm s (new_fd i) (init_sockets (suc i) new_fd old)
      (λ shm' acts r. init_sockets-IsShm (suc i) new_fd old shm' acts r) shm actions e

-- Whatever the applications, the network and the scheduler do, every socket of the shared array is
-- well formed between two critical sections: buffers of ten slots of 512 bytes, indices and counts
-- in range, the receive buffer's count exact, and every sequence number below 256.
pub Reach-IsShm : {old shm : SmData} → Reach old shm → IsShm shm
Reach-IsShm {old} (start {shm} new_fd actions e) = init_sockets-IsShm 0 new_fd old shm actions e
Reach-IsShm (later r st) = Step-IsShm st (Reach-IsShm r)
