-- ===== src/Lib.antt =====
-- Verification of programs of a networks laboratory: a reliable transport over UDP, a task queue
-- server with its client, a mail server, a discovery protocol, and servers that encrypt files, hand
-- out words, and keep a chat and a contest. Each is translated from its C source, and the files say from which.
--
-- Ktp models "Assignment 4 Final". Applications call ksocket.c on an array of sockets in shared
-- memory, and the process of initksocket.c runs threads over the same array.
--   Ktp/Types, Ktp/Window: ksocket.h and the arithmetic of sequence numbers of initksocket.c.
--   Ktp/Packet: the packets' make-up and reading in initksocket.c.
--   Ktp/Socket: the calls of ksocket.c. A negative descriptor is an integer of the model.
--   Ktp/Receiver, Ktp/Rthread: RThread; Ktp/Sender: SThread, transmit_segment and
--   check_retransmission.
--   Ktp/Init: the garbage collector, the main loop and the start of initksocket.c.
--   Ktp/System: the calls and threads as steps over the array. A lock is held over one such step, so a
--   step is atomic; k_socket, which gives the lock back between its search and its claim, is two. The
--   bound flag that k_bind sets behind the lock is set in the same step.
-- The other files under Ktp hold the lemmas and theorems that their names tell, Ktp/Tests what they
-- say at concrete inputs.
--   What the system and the network give is an input: the datagrams received, the answer of select,
--   the random number, the time, the descriptors of new sockets, and which processes live. The three
--   entries that SThread keeps per transmission, -1 together, are one optional record.
--   Loops run on fuel. The scan for the cumulative acknowledgement and the walks over sequence numbers
--   have 256 rounds, as many as there are numbers. The release of acknowledged messages has 11, one
--   more than a window holds; where it uses them up, the loop of the source does not end, and this is
--   a result of its own and not taken for a success.
--
-- TaskQueue models server.c and client.c of "Assignment 5".
--   TaskQueue/Queue: TaskQueue, load_tasks, reaasign_lost_tasks, get_next_task.
--   TaskQueue/Client: send_message and handle_client, one round of its loop at a time. What recv
--   returns is an input, and so is whether a process is lost, which is the answer of kill.
--   TaskQueue/Worker: eval_expr of client.c in the same directory, and a round of its loop with the
--   process that serves it, where each message arrives in one recv. An int is its sign and its size;
--   what the standard leaves undefined is no result.
--   TaskQueue/System: the processes over the queue. The two critical sections of get_next_task may have
--   other steps between them; such a run is the first section as a step of its own, and then a round
--   in which nobody is found lost.
--   The set-up of shared memory and of sockets, and the reaping of children, are not modelled.
--
-- Smtp models "Assignment 6/mysmtp_server.c".
--   Smtp/Address: check_valid_email and extract_domain; Smtp/Mailbox: store_email,
--   get_email and list_emails on the files of the mailboxes.
--   Smtp/State, Smtp/Session: handle_client, one recv at a time, with the loop of DATA as a phase. What
--   it does is a list of actions: bytes sent, and calls of store_email, list_emails and get_email with
--   their arguments. Strings are the bytes before the NUL. A write or read behind the buffer ends the run. What
--   an uninitialised buffer holds is an input.
--   The accept loop is not modelled, nor how %d reads the number of GET_MAIL from its text.
--
-- Cldp models "Assignment 7", on a little-endian host.
--   Cldp/Wire: CLDPHeader, the IP header as memory, checksum of cldp_server.c. The loop over the carry has
--   two rounds, enough for any sum of 32 bits. cldp_client.c has copies of checksum and get_local_ip.
--   Cldp/Server: the HELLO packet, get_local_ip and the loop of main in cldp_server.c. The texts for
--   host, time and load, random numbers and the list of interfaces are inputs.
--   Cldp/Client: cldp_client.c, each round of the threads for HELLO packets, timeouts and queries;
--   Cldp/System: these rounds in any order. Where malloc fails is an input, and so are all times.
--   The set-up of raw sockets and threads, waiting and printing are not modelled.
--
-- Cipher models "Assignment 3".
--   Cipher/Programs: encrypt and the loops of main in doencfileserver.c, check and the loops of main in
--   retrieveencfileclient.c. What recv returns is a list of pieces; each loop reads all of a file.
--   The 26 bytes of the key are taken to arrive together. Prompts and file names are not modelled.
--
-- Words models "Assignment 2", where no datagram is lost.
--   Words/Programs: wordserver.c, what it answers to the name of a file and to each request, and
--   wordclient.c, whose run against the server takes fuel, a round for each request.
--   Its number for strtol is as large as the digits say; past the range of long the source cuts it,
--   and the file is taken to have fewer words. udpserver.c and udpclient.c are not modelled.
--
-- Rooms models the servers of LT1.
--   Rooms/Slots: the slots of the clients and the loop over them, alike in both servers.
--   Rooms/Chat: LT1/LT1_SetA/server.c; Rooms/Contest: LT1/LT1_SetB/server.c. What select, accept, recv
--   and getpeername return are inputs. An access outside a buffer or array ends the run without a
--   result. atoi is taken as strtol, which stops at the ends of a long of 64 bits, cut to the low 32
--   bits as an int.
--
-- Ktp/Files models user1.c and user2.c of "Assignment 4 Final". A message that is refused is sent
--   again, so the sender's messages are those accepted. One round of fuel for each byte of the file, and
--   one more, is enough for its loop.
--
-- KtpFirst models "Assignment 4 Initial", an earlier protocol than that of Ktp with other packets.
--   KtpFirst/Types: ksocket.h; KtpFirst/Packet: the packets, whose headers are digits 0 and 1.
--   KtpFirst/Receiver, KtpFirst/Sender: the threads of initksocket.c at one entry of the array;
--   KtpFirst/Init: its garbage collector and main loop. KtpFirst/Socket: the calls of ksocket.c on their
--   entry; k_socket and k_bind by the parts between their semaphores.
--   KtpFirst/Files: user1.c and user2.c, whose read and calls are inputs, without their other errors.
--   What the arrays on the stack hold before they are written is an input. Loops over sequence numbers
--   have 256 rounds of fuel, as many as there are numbers; fuel that runs out is a result of its own.
--   The steps' interleaving is modelled for one receiving entry in KtpFirst/Delivery, and for one
--   sending entry in KtpFirst/Course.
--
-- Not modelled: the servers of LT2, which echo or log what they receive and keep no state; the
--   clients that only pass a terminal's lines on; the task queue's test drivers; and the examples of raw
--   sockets, which print packets.
--
-- Prelude holds what these share: tests on numbers, lists over native numbers, C strings, and numbers
-- as printf writes and strtol reads them.
pub mod Prelude
pub mod Ktp
pub mod TaskQueue
pub mod Smtp
pub mod Cldp
pub mod Cipher
pub mod Words
pub mod Rooms
pub mod KtpFirst
