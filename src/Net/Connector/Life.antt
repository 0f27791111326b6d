-- ===== src/Net/Connector/Life.antt =====
-- The channel of windz/net/Connector.cpp over a connector's life.
use windz.Prelude.{
  ◌+◌, ◌≡◌, refl, Bool-cases, inl, inr, true, false, [], ◌∷◌, ◌++◌, some, ok, fault, assertion,
  ◌>>=◌, Returns, returns,
}
use windz.Net.Channel.{Channel, disable_read_write, close}
use windz.Net.Connector.{
  Connector, disconnected, connecting, none_or_in_progress, reset_task, start_connecting,
  start_in_loop, connect, wait_writable, stop, stop_in_loop, reset_channel, run_task, handle_error,
  retry, handle_write, socket_error, self_connect,
}

-- What is left of a connector whose attempt was given up: the socket is closed, and the channel
-- stays until the functor has run.
pub record GaveUp (c c' : Connector) : Type 0 where
  pub over : c'.state ≡ disconnected
  pub released : c'.closed ≡ c.closed + 1
  pub silent : c'.given ≡ c.given
  pub queued : c'.tasks ≡ c.tasks ++ reset_task ∷ []
  pub kept :
      (ch : Channel) × (c'.channel ≡ some ch) × (ch.registered ≡ false) × (ch.handled ≡ false)

-- The channel as `Close` leaves it.
abbrev off : Channel
off = record { reading = false; writing = false; registered = false; handled = false }

abbrev reset : Connector → Connector
reset c = record c { channel = some off; tasks = c.tasks ++ reset_task ∷ [] }

retried : (c : Connector) → Returns (GaveUp c) (ok (retry (reset c)))
unfolding retry
retried c = elim (Bool-cases c.start) [
  | inl e ↦ rw e (
      returns (record {
        over = refl;
        released = refl;
        silent = refl;
        queued = refl;
        kept = (off, refl, refl, refl);
      }))
  | inr e ↦ rw e (
      returns (record {
        over = refl;
        released = refl;
        silent = refl;
        queued = refl;
        kept = (off, refl, refl, refl);
      }))
]

-- A connection in progress can be given up by `Stop`, by an error event, or by a socket that turns
-- out to be broken or connected to itself; its socket is then closed once, its channel leaves the
-- loop, and no connection is reported.
give_up_lem :
    (ch : Channel) (c : Connector)
    → c.state ≡ connecting
    → c.channel ≡ some ch
    → Returns (GaveUp c) (stop true c)
      × Returns (GaveUp c) (handle_error c)
      × Returns (GaveUp c) (handle_write socket_error c)
      × Returns (GaveUp c) (handle_write self_connect c)
unfolding stop stop_in_loop reset_channel handle_error handle_write retry close disable_read_write
give_up_lem ch c s h =
    rw (s, h)
      (
        returns (record {
          over = refl;
          released = refl;
          silent = refl;
          queued = refl;
          kept = (off, refl, refl, refl);
        }),
        retried _,
        retried _,
        retried _,
      )

-- Between `Stop` and the functor that drops its channel, `Start` of a connection that is in
-- progress again fails the assertion of `Connecting`; once the functor has run it does not.
start_before_reset_faults :
    (ch : Channel) (c : Connector)
    → c.state ≡ connecting
    → c.channel ≡ some ch
    → ((stop true c >>= start_connecting true none_or_in_progress) ≡ fault assertion)
      × Returns
          (λ c'. c'.state ≡ connecting)
          (stop true c
            >>= run_task none_or_in_progress reset_task
            >>= start_connecting true none_or_in_progress)
unfolding stop stop_in_loop reset_channel close disable_read_write start_connecting start_in_loop
    connect wait_writable run_task
start_before_reset_faults ch c s h = rw (s, h) (refl, returns refl)
