-- ===== src/Ktp/Tests/Calling.antt =====
-- Calls of an application, and the life of an entry.
use networks_lab_cs39006_spr.Prelude.{refl, true, some, arith}
use networks_lab_cs39006_spr.Ktp.Types.{KtpSocket}
use networks_lab_cs39006_spr.Ktp.Socket.{zero_message, no_address, claim_socket}
use networks_lab_cs39006_spr.Ktp.Init.{Supply}
use networks_lab_cs39006_spr.Ktp.Invariant.Defs.{IsSocket}
use networks_lab_cs39006_spr.Ktp.Invariant.Calls.{claim_socket-IsSocket}
use networks_lab_cs39006_spr.Ktp.Receive.Deliver.{handle_data-in_order}
use networks_lab_cs39006_spr.Ktp.Tests.Receiving.{blank, claimed}

claimed-IsSocket : IsSocket claimed
claimed-IsSocket = claim_socket-IsSocket 7 blank

-- The socket once the first message is in its buffer.
abbrev received : KtpSocket
received =
    (handle_data-in_order zero_message no_address claimed claimed-IsSocket
      (unfold claim_socket in omega arith) (unfold claim_socket in refl)).0

abbrev supply : Supply
supply = record { new_fd = some 6; bound_to = some no_address; bind_ok = true }
