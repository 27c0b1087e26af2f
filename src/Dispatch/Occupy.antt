-- ===== src/Dispatch/Occupy.antt =====
-- internal/dispatch/occupy.go: callers outside the dispatcher that work on a registered job, and the
-- teardown's wait for them.
use sabnzbd_go.Base.{
  if◌then◌else◌, Bool, Option, String, leb, length, ltb, none, not, some, ℕ, ◌+◌, ◌-◌, ◌==◌, ◌∷◌,
}
use sabnzbd_go.Base.Keys.{nat_eq, contains, remove}
use sabnzbd_go.Base.Result.{Result, err, ok}
use sabnzbd_go.Dispatch.Registry.{Dispatcher, Refusal, admits, close, not_found, put}

-- Occupy up to the call of fn: the new token is the next address.
unfoldable pub occupy : String → Dispatcher → Result Refusal (Dispatcher × ℕ)
unfolding admits
occupy id d =
    if not (admits d id)
    then err not_found
    else ok (
      record d {
        tokens = put d.tokens id (d.fresh ∷ d.tokens id);
        occupiers = put d.occupiers id (d.occupiers id + 1);
        fresh = d.fresh + 1;
      },
      d.fresh,
    )

-- `close(ch); d.occupyStep[id] = make(chan struct{})`, if there is one
unfoldable pub renew_step : String → Option ℕ → Dispatcher → Dispatcher
unfolding close
renew_step id none d = d
renew_step id (some ch) d = record d {
  closed = close (some ch) d.closed;
  steps = put d.steps id (some d.fresh);
  fresh = d.fresh + 1;
}

-- What leave does when the count falls to 0.
unfoldable pub drain : String → Dispatcher → Dispatcher
unfolding close
drain id d = record d {
  occupiers = put d.occupiers id 0;
  closed = close (d.steps id) (close (d.drained id) d.closed);
  drained = put d.drained id none;
  steps = put d.steps id none;
}

-- Occupy's deferred function.
unfoldable pub leave : String → ℕ → Dispatcher → Dispatcher
unfolding remove drain renew_step
leave id tok d =
    let d' = record d { tokens = put d.tokens id (remove tok (d.tokens id)) } in
    if leb (d.occupiers id) 1
    then drain id d'
    else renew_step id (d.steps id)
        (record d' { occupiers = put d.occupiers id (d.occupiers id - 1) })

-- What a wait does next: it is over, it waits on a channel, or it goes on as waitLive.
pub data Wait : Type 0 where
  over : Wait
  on_channel : ℕ → Wait
  as_wait_live : Wait

-- waitLive up to its select: none is "nothing to wait for".
unfoldable pub wait_channel : String → Option ℕ → Dispatcher → Dispatcher × Wait
wait_channel id (some ch) d = (d, on_channel ch)
wait_channel id none d = (
  record d { drained = put d.drained id (some d.fresh); fresh = d.fresh + 1 },
  on_channel d.fresh,
)

unfoldable pub wait_live : String → Dispatcher → Dispatcher × Wait
unfolding wait_channel
wait_live id d = if d.occupiers id == 0 then (d, over) else wait_channel id (d.drained id) d

unfoldable pub step_channel : String → Option ℕ → Dispatcher → Dispatcher × Wait
step_channel id (some ch) d = (d, on_channel ch)
step_channel id none d =
    (record d { steps = put d.steps id (some d.fresh); fresh = d.fresh + 1 }, on_channel d.fresh)

-- One round of waitLiveExcept up to its select; a caller without a token only uses waitLive.
unfoldable pub wait_live_except : String → ℕ → Dispatcher → Dispatcher × Wait
unfolding contains step_channel
wait_live_except id caller d =
    if not (contains caller (d.tokens id))
    then (d, as_wait_live)
    else if leb (length (d.tokens id)) 1
    then (d, over)
    else step_channel id (d.steps id) d

unfoldable pub is_occupied : Dispatcher → String → Bool
is_occupied d id = ltb 0 (d.occupiers id)
