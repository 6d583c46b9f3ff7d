-- ===== src/Frame/Write.antt =====
-- lib/packet_dimq.c: packets that are sent. The answers of the socket are a parameter. The broker's
-- variant.
use dimq.Result.{Status, err, success, conn_lost, errno, no_conn}
use dimq.Prelude.{
  List, [], ◌∷◌, ◌++◌, ℕ, ◌+◌, ◌-◌, ◌==◌, Bool, not, Option, none, some, if◌then◌else◌, take, drop,
  min,
}
use dimq.Frame.{Halt, again, interrupted, eof, reset, failed}
use dimq.Database.{int_add, int_sub}

-- `struct dimq__packet`, for what is sent: `payload` is the whole packet.
pub record Sending : Type 0 where
  pub payload : List ℕ
  pub pos : ℕ
  pub to_process : ℕ

-- `current_out_packet`, `out_packet` to `out_packet_last`, and `out_packet_count`
pub record Queue : Type 0 where
  pub current_out_packet : Option Sending
  pub out_packet : List Sending
  pub out_packet_count : ℕ

-- What `net__write` answers to come: the number of bytes that were taken, of which the packet has at
-- least as many, or nothing and an error. When no answer is left, EAGAIN.
pub data Answer : Type 0 where
  wrote : ℕ → Answer
  stuck : Halt → Answer

abbrev pub stuck_code : Halt → Status
stuck_code again = success
stuck_code interrupted = success
stuck_code eof = err errno
stuck_code reset = err conn_lost
stuck_code failed = err errno

-- What the inner loop leaves: the packet, the bytes that were taken, and where it stopped the code
pub record Sent : Type 0 where
  pub packet : Sending
  pub bytes : List ℕ
  pub stop : Option Status
  pub rest : List Answer

abbrev pub took : ℕ → Sending → Sending
took n p = record p { to_process = p.to_process - n; pos = p.pos + n }

abbrev pub taken_from : ℕ → Sending → List ℕ
taken_from n p = take n (drop p.pos p.payload)

abbrev pub after_bytes : List ℕ → Sent → Sent
after_bytes bs r = record r { bytes = bs ++ r.bytes }

-- The inner loop of `packet__write`. A write of nothing leaves `errno` 0.
unfoldable pub send : List Answer → Sending → Sent
send [] p = record {
  packet = p;
  bytes = [];
  stop = if p.to_process == 0 then none else some success;
  rest = [];
}
send (wrote n ∷ answers) p =
    let k = min n p.to_process in
    let more = after_bytes (taken_from k p) (send answers (took k p)) in
    if p.to_process == 0
    then record { packet = p; bytes = []; stop = none; rest = wrote n ∷ answers }
    else if n == 0
    then record { packet = p; bytes = []; stop = some (err errno); rest = answers }
    else more
send (stuck h ∷ answers) p =
    if p.to_process == 0
    then record { packet = p; bytes = []; stop = none; rest = stuck h ∷ answers }
    else record { packet = p; bytes = []; stop = some (stuck_code h); rest = answers }

-- What a call leaves, and the bytes that were taken
pub record Wrote : Type 0 where
  pub code : Status
  pub queue : Queue
  pub bytes : List ℕ

abbrev pub after_sent : List ℕ → Wrote → Wrote
after_sent bs r = record r { bytes = bs ++ r.bytes }

-- The next packet of the queue becomes the current one.
abbrev pub count_down : List Sending → ℕ → ℕ
count_down [] count = count
count_down (p ∷ ps) count = int_sub count 1

abbrev pub stop_or : Option Status → Wrote → Wrote → Wrote
stop_or none w more = more
stop_or (some code) w more = record w { code = code }

-- The outer loop, over the current packet and those behind it
unfoldable pub send_all : List Sending → ℕ → List Answer → Wrote
send_all [] count answers = record {
  code = success;
  queue = record { current_out_packet = none; out_packet = []; out_packet_count = count };
  bytes = [];
}
send_all (p ∷ ps) count answers =
    let r = send answers p in
    let more = send_all ps (count_down ps count) r.rest in
    let here : Wrote = record {
      code = success;
      queue = record {
        current_out_packet = some r.packet;
        out_packet = ps;
        out_packet_count = count;
      };
      bytes = [];
    } in
    after_sent r.bytes (stop_or r.stop here more)

-- Where there is no current packet, the first of the queue becomes it.
abbrev pub pick : Option Sending → List Sending → ℕ → Queue
pick none [] count = record { current_out_packet = none; out_packet = []; out_packet_count = count }
pick none (p ∷ ps) count = record {
  current_out_packet = some p;
  out_packet = ps;
  out_packet_count = int_sub count 1;
}
pick (some p) ps count = record {
  current_out_packet = some p;
  out_packet = ps;
  out_packet_count = count;
}

abbrev pub loop : Option Sending → List Sending → ℕ → List Answer → Wrote
loop none ps count answers = record {
  code = success;
  queue = record { current_out_packet = none; out_packet = ps; out_packet_count = count };
  bytes = [];
}
loop (some p) ps count answers = send_all (p ∷ ps) count answers

-- `packet__write`: `has_sock` and whether the state is dimq_cs_connect_pending
unfoldable pub write : Bool → Bool → List Answer → Queue → Wrote
write has_sock is_pending answers q =
    let picked = pick q.current_out_packet q.out_packet q.out_packet_count in
    if not has_sock
    then record { code = err no_conn; queue = q; bytes = [] }
    else if is_pending
    then record { code = success; queue = picked; bytes = [] }
    else loop picked.current_out_packet picked.out_packet picked.out_packet_count answers

-- `packet__queue`
abbrev pub enqueue : List ℕ → ℕ → Queue → Queue
enqueue payload packet_length q = record q {
  out_packet =
      q.out_packet ++ (record { payload = payload; pos = 0; to_process = packet_length } ∷ []);
  out_packet_count = int_add q.out_packet_count 1;
}

unfoldable pub queue : Bool → Bool → List Answer → List ℕ → ℕ → Queue → Wrote
queue has_sock is_pending answers payload packet_length q =
    write has_sock is_pending answers (enqueue payload packet_length q)
