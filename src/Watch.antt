-- ===== src/Watch.antt =====
-- router/watch.c: the event loop, its watches and its timers. An object is known by its address: a
-- watch and a timer by `node`, a queue and a flow context by a number. What a callback does is an
-- argument, since a callback is any function of the program.
pub mod Timers
pub mod Aio
pub mod Run
pub mod Events
pub mod Fifo
pub mod Drain
pub mod Walk
mod Tests
use diag.Base.{
  ℕ, zero, suc, ◌+◌, ◌-◌, ◌*◌, ◌/◌, ◌%◌, ◌^◌, ◌≤◌, ◌<◌, min, bit_and, bit_or, bit_xor, ◌≡◌, refl,
  sym, ap, ap₂, ◌∙◌, ◌≢◌, ◌↔◌, ◌⊎◌, inl, inr, Bool, true, false, not, ◌&&◌, ◌||◌, Option, none,
  some, List, [], ◌∷◌, ◌++◌, map, append-nil, append_assoc, arith, ltb, leb, ◌==◌, if◌then◌else◌,
  ltb→lt, ==_iff, ==_refl, Bool-cases, Option-cases, length, get_elem?, get_or, set, take, drop,
  replicate, keep_if, length-append, length-set, length-take, length-drop, length-replicate,
  get_or-set_self, get_or-set_ne, take-append, drop-append, All, All-append, passes_below,
  passes_below-lt, bit_xor_step, bit_xor-zero, bit_xor_fields, bit_xor-lt,
}
use diag.World.{Mbuf, Queue, Flows}

-- `struct timeval`, which is not negative in what the loop keeps.
pub record Timeval : Type 0 where
  pub tv_sec : ℕ
  pub tv_usec : ℕ

-- `struct timer`. A callback is known with its data by one number.
pub record Timer : Type 0 where
  pub node : ℕ
  pub cb : ℕ
  pub interval : ℕ
  pub repeat : Bool
  pub tick : Timeval

-- `struct watch`. `aio_complete` is `none` for `watch_free_write_aio`.
pub record Watch : Type 0 where
  pub node : ℕ
  pub fd : ℕ
  pub cb : ℕ
  pub queue : ℕ
  pub pending_aio : Option Mbuf
  pub is_write : Bool
  pub flow : Option ℕ
  pub aio_complete : Option ℕ

-- The static variables, the queues and the counters that watches point to, and in `rest` whatever
-- else the callbacks work on. `fresh` is above every address in use.
pub record Loop {ℓ} (S : Type ℓ) : Type ℓ where
  pub timers : List Timer
  pub read_watches : List Watch
  pub aio_watches : List Watch
  pub quit_watches : List Watch
  pub do_watch_quit : Bool
  pub queues : ℕ → Queue
  pub flows : Flows
  pub fresh : ℕ
  pub rest : S

-- `calloc(1, sizeof(struct watch))`; the process exits where there is no memory.
abbrev pub blank_watch : ℕ → ℕ → Watch
blank_watch node fd = record {
  node = node;
  fd = fd;
  cb = 0;
  queue = 0;
  pending_aio = none;
  is_write = false;
  flow = none;
  aio_complete = none;
}

module _ {ℓ} {S : Type ℓ} where
  unfoldable pub watch_add_readfd : ℕ → ℕ → Option ℕ → Loop S → Loop S
  watch_add_readfd fd cb flow s = record s {
    read_watches =
        s.read_watches ++ (record (blank_watch s.fresh fd) { cb = cb; flow = flow } ∷ []);
    fresh = s.fresh + 1;
  }

  unfoldable pub watch_add_readq : ℕ → ℕ → ℕ → Loop S → Loop S
  watch_add_readq fd queue cb s = record s {
    aio_watches =
        s.aio_watches
        ++ (record (blank_watch s.fresh fd) { queue = queue; aio_complete = some cb } ∷ []);
    fresh = s.fresh + 1;
  }

  unfoldable pub watch_add_writeq : ℕ → ℕ → Loop S → Loop S
  watch_add_writeq fd queue s = record s {
    aio_watches =
        s.aio_watches ++ (record (blank_watch s.fresh fd) { queue = queue; is_write = true } ∷ []);
    fresh = s.fresh + 1;
  }

  unfoldable pub watch_add_quit : ℕ → Loop S → Loop S
  watch_add_quit cb s = record s {
    quit_watches = s.quit_watches ++ (record (blank_watch s.fresh 0) { cb = cb } ∷ []);
    fresh = s.fresh + 1;
  }

  -- The watches on a descriptor are freed; buffers that are pending on them are not.
  unfoldable pub watch_remove_fd : ℕ → Loop S → Loop S
  watch_remove_fd fd s = record s {
    read_watches = keep_if (λ w. not (w.fd == fd)) s.read_watches;
    aio_watches = keep_if (λ w. not (w.fd == fd)) s.aio_watches;
  }

  unfoldable pub watch_remove_writeq : ℕ → Loop S → Loop S
  watch_remove_writeq fd s = record s {
    aio_watches = keep_if (λ w. not (w.fd == fd)) s.aio_watches;
  }

  unfoldable pub watch_quit : Loop S → Loop S
  watch_quit s = record s { do_watch_quit = true }
