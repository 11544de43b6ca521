-- ===== src/Daemon/Tests.antt =====
-- A router with one monitor that has no encoding, and the theorem on its close.
use diag.Base.{
  ℕ, ◌≡◌, refl, ◌≢◌, inl, inr, true, false, none, some, List, [], ◌∷◌, arith, replicate, All,
}
use diag.Bytes.{Bytes}
use diag.CircBuf.{Kernel, got}
use diag.CircBuf.Tests.{empty_ring}
use diag.World.{DiagClient, Peripheral, ok, diag_encode_raw}
use diag.Hdlc.{hdlc_decoder_zero}
use diag.Masks.Memory.{mask_invalid}
use diag.Queue.{watch_flow_blocked}
use diag.Dm.Read.{returned}
use diag.Watch.{Timeval, blank_watch}
use diag.Daemon.{State, outq_of}
use diag.Daemon.Client.{find_client, recv_for}
use diag.Daemon.Counts.{broadcast_all, Piled}
use diag.Daemon.Closed.{recv_for_closed}

abbrev pub client : ℕ → DiagClient
client ty = record {
  id = 1;
  in_fd = some 3;
  out_fd = 3;
  encode_type = ty;
  encode_hdlc_reset = false;
  enabled = true;
  recv_buf = empty_ring;
  outq = [];
}

abbrev pub modem : Peripheral
modem = record {
  id = 5;
  features = 0;
  cmdq = [];
  cntlq = [];
  dataq = [];
  cntl_fd = some 6;
  data_fd = some 7;
  cmd_fd = none;
  flow = some 5;
  diag_id = 0;
  sockets = false;
  name = 109 ∷ 112 ∷ 115 ∷ 115 ∷ [];
  cntl_open = false;
  data_open = false;
  recv_buf = empty_ring;
  recv_decoder = hdlc_decoder_zero;
}

abbrev pub site : DiagClient → State
site dm = record {
  timers = [];
  read_watches = blank_watch 10 3 ∷ blank_watch 11 6 ∷ blank_watch 12 7 ∷ [];
  aio_watches = record (blank_watch 13 3) { queue = outq_of 1 } ∷ blank_watch 14 7 ∷ [];
  quit_watches = [];
  do_watch_quit = false;
  queues = λ q. [];
  flows = λ f. 0;
  fresh = 20;
  rest = record {
    world = record {
      alloc = λ n. true;
      junk = λ i. 0;
      clients = dm ∷ [];
      flows = λ f. 0;
      peripherals = modem ∷ [];
      masks = record {
        msg = record { items = []; status = mask_invalid };
        bt = record { items = []; status = mask_invalid };
        log = record { items = []; status = mask_invalid };
        event = record { ptr = []; mask_len = 0; status = mask_invalid; max_num_bits = 0 };
      };
      diag_ids = [];
      diag_id = 1;
      common_cmds = [];
      diag_cmds =
          record { first = 0x4b120000; last = 0x4b1200ff; peripheral = some 5; cb = none } ∷ [];
      fallback_cmds = [];
    };
    devnodes = [];
    bad_cmd_counter = 0;
  };
}

abbrev midnight : Timeval
midnight = record { tv_sec = 0; tv_usec = 0 }

abbrev hung_up : Kernel
hung_up i room = got []

abbrev eleven : List Bytes
eleven = replicate 11 (0x60 ∷ [])

found : find_client 1 (client diag_encode_raw ∷ []) ≡ some (client diag_encode_raw)
unfolding find_client
found = refl

recv_for_closed_example :
    (s1 s2 : State) × (recv_for midnight 1 hung_up 1 (site (client diag_encode_raw))
      ≡ some (returned ok, s1))
    × (find_client 1 s1.rest.world.clients ≡ some (client diag_encode_raw))
    × All (λ w. w.fd ≢ 3) s1.read_watches
    × All (λ w. w.fd ≢ 3) s1.aio_watches
    × (broadcast_all eleven (some 5) s1 ≡ some s2)
    × Piled 1 5 11 (client diag_encode_raw) s1 s2
    × All (λ w. w.queue ≢ outq_of 1) s2.aio_watches
    × (watch_flow_blocked s2.flows (some 5) ≡ true)
recv_for_closed_example =
    recv_for_closed midnight 0 hung_up 1 3 5 (client diag_encode_raw) eleven
      (site (client diag_encode_raw)) found refl refl
      (inr refl, (inl (λ e. absurd (omega (arith, e))), tt)) refl (λ n. refl) (inl refl, tt) refl
      (omega arith)
