-- ===== src/KtpFirst/Init.antt =====
-- The main loop and the garbage collector of "Assignment 4 Initial/initksocket.c".
use networks_lab_cs39006_spr.Prelude.{
  ℕ, Bool, true, false, ◌&&◌, List, [], ◌∷◌, Option, none, some, ◌==◌, if◌then◌else◌,
}
use networks_lab_cs39006_spr.KtpFirst.Types.{SmEntry}

-- `struct SOCKET_INFO`, where a `sockid` of `none` is -1.
pub record SocketInfo : Type 0 where
  pub sockid : Option ℕ
  pub ip_addr : List ℕ
  pub port : ℕ
  pub error_no : ℕ

abbrev pub no_info : SocketInfo
no_info = record { sockid = some 0; ip_addr = []; port = 0; error_no = 0 }

abbrev pub is_zero : Option ℕ → Bool
is_zero none = false
is_zero (some n) = n == 0

abbrev pub is_empty_text : List ℕ → Bool
is_empty_text [] = true
is_empty_text (c ∷ cs) = false

-- What `socket` returns, or `errno`.
abbrev pub created : Option ℕ → ℕ → SocketInfo → SocketInfo
created none errno info = record info { sockid = none; error_no = errno }
created (some fd) errno info = record info { sockid = some fd }

-- One round of the main loop: an empty request asks for a socket, and any other for `bind`, of which
-- `binds` tells whether it succeeds.
unfoldable pub serve_request :
    (new_fd : Option ℕ) → (binds : Bool) → (errno : ℕ) → SocketInfo → SocketInfo
serve_request new_fd binds errno info =
    if is_zero info.sockid && (is_empty_text info.ip_addr && (info.port == 0))
    then created new_fd errno info
    else if binds
    then info
    else record info { sockid = none; error_no = errno }

-- One entry in a round of `garbage_collector_thread_handler`.
unfoldable pub collect_entry : (alive : ℕ → Bool) → SmEntry → SmEntry
collect_entry alive s =
    if s.is_free then s else if alive s.pid then s else record s { is_free = true }
