-- ===== src/Smtp/State.antt =====
-- What `handle_client` in "Assignment 6/mysmtp_server.c" keeps and does, and the words it reads.
use networks_lab_cs39006_spr.Prelude.{
  is_space, skip_spaces, ℕ, Bool, false, List, [], ◌∷◌, ◌++◌, if◌then◌else◌, codes, take,
}
use Prim.Native.String.{String}
use networks_lab_cs39006_spr.Smtp.Address.{buffer_size, is_empty, extract_domain}

abbrev pub message_size : ℕ
message_size = 40960

-- The loop that waits for a command, or the one of DATA that collects the message.
pub data Phase : Type 0 where
  command : Phase
  body : List ℕ → Phase

-- The locals of `handle_client`; `state` is 0 for HELO, 1 for MAIL FROM, 2 for RCPT TO, 3 for DATA.
pub record Session : Type 0 where
  pub phase : Phase
  pub state : ℕ
  pub helo_received : Bool
  pub helo_domain : List ℕ
  pub sender : List ℕ
  pub recipient : List ℕ

abbrev pub new_session : Session
new_session = record {
  phase = command;
  state = 0;
  helo_received = false;
  helo_domain = [];
  sender = [];
  recipient = [];
}

-- What the handler does: bytes sent, or a call of `store_email`, `list_emails` or `get_email`.
pub data Action : Type 0 where
  sends : List ℕ → Action
  stores : (recipient sender message : List ℕ) → Action
  lists : (recipient : List ℕ) → Action
  gets : (recipient id : List ℕ) → Action

-- The loop goes on, the connection is closed, or a byte is written or read past the buffer.
pub data Next : Type 0 where
  running : Session → Next
  closed : Next
  overrun : Next

-- `send` of the first `n` bytes of a literal, which ends in NUL.
abbrev pub reply : String → ℕ → Action
reply text n = sends (take n (codes text ++ 10 ∷ 0 ∷ []))

abbrev pub word : List ℕ → List ℕ
word [] = []
word (c ∷ cs) = if is_space c then [] else c ∷ word cs

abbrev pub after_word : List ℕ → List ℕ
after_word [] = []
after_word (c ∷ cs) = if is_space c then c ∷ cs else after_word cs

-- `%s` of `sscanf`: with nothing to read, the variable keeps its value.
unfoldable pub scan_word : List ℕ → List ℕ → List ℕ
scan_word text old = let w = word (skip_spaces text) in if is_empty w then old else w

abbrev pub domain : List ℕ → List ℕ
domain input = extract_domain input buffer_size
