-- ===== src/Dispatch/Restart.antt =====
-- internal/dispatch/dispatch.go: restore, which registers the stored rows before the first tick, or none.
use sabnzbd_go.Base.{
  if◌then◌else◌, List, Option, String, [], false, none, some, true, ℕ, ◌++◌, ◌+◌, ◌==◌, ◌∷◌,
}
use sabnzbd_go.Base.Result.{Result, err, ok}
use sabnzbd_go.Dispatch.Ports.{Persisted}
use sabnzbd_go.Dispatch.Registry.{
  Dispatcher, Refusal, begin_removal, deregister, mark_written, register,
}
use sabnzbd_go.Dispatch.Restore.{RestoreErr, reconstruct}
use sabnzbd_go.Job.Record.{Job, set_added}
pub mod Rows
pub mod Rollback

pub data RowErr : Type 0 where
  not_loaded : RowErr
  not_rebuilt : RestoreErr → RowErr
  not_entered : Refusal → RowErr

-- A new job, at the next address, dated as its row says; restoreJobMetadata sets no other field of a job
-- that is modelled.
unfoldable pub allocate : Job → ℕ → Dispatcher → Dispatcher
unfolding set_added
allocate j date d = record d {
  jobs = λ x. if d.fresh == x then set_added date j else d.jobs x;
  fresh = d.fresh + 1;
}

-- The end of a row's turn, after register.
unfoldable pub row_registered : Persisted → Result Refusal Dispatcher → Result RowErr Dispatcher
unfolding mark_written
row_registered p (err e) = err (not_entered e)
row_registered p (ok d) = ok (mark_written p d)

unfoldable pub row_rebuilt :
    Persisted → Dispatcher → Result RestoreErr Job → Result RowErr Dispatcher
unfolding row_registered register allocate
row_rebuilt p d (err e) = err (not_rebuilt e)
row_rebuilt p d (ok j) =
    row_registered p (register d.fresh p.header (some p.sort_key) (allocate j p.header.added d))

unfoldable pub restore_row : ℕ → Persisted → Dispatcher → Result RowErr Dispatcher
unfolding row_rebuilt reconstruct
restore_row now p d = row_rebuilt p d (reconstruct p.id p.header.name p.policy p.state p.intent now)

-- One step of the deferred rollback.
unfoldable pub take_back : String → Dispatcher → Dispatcher
unfolding begin_removal deregister
take_back id d = let (d', found) = begin_removal id d in if found then deregister id d' else d'

unfoldable pub rollback : List String → Dispatcher → Dispatcher
unfolding take_back
rollback [] d = d
rollback (id ∷ ids) d = rollback ids (take_back id d)

-- A row's error ends the loop with the rollback, and else the loop goes on.
unfoldable pub after_row :
    Dispatcher
    → (Dispatcher → Dispatcher × Option RowErr)
    → Result RowErr Dispatcher
    → Dispatcher × Option RowErr
after_row back go_on (err e) = (back, some e)
after_row back go_on (ok d) = go_on d

-- The loop over the rows, with the ids that it has registered; on an error they are taken back.
unfoldable pub restore_rows :
    ℕ → List Persisted → List String → Dispatcher → Dispatcher × Option RowErr
unfolding restore_row rollback after_row
restore_rows now [] done d = (d, none)
restore_rows now (p ∷ ps) done d =
    after_row (rollback done d) (λ d'. restore_rows now ps (done ++ p.id ∷ []) d')
      (restore_row now p d)

abbrev pub restoring_ended : Dispatcher × Option RowErr → Dispatcher × Option RowErr
restoring_ended (d, e) = (record d { restoring = false }, e)

-- `sort` is slices.SortFunc by sort key and id; none is an error of Store.Load.
unfoldable pub restore :
    ℕ
    → (List Persisted → List Persisted)
    → Option (List Persisted)
    → Dispatcher
    → Dispatcher × Option RowErr
unfolding restore_rows
restore now sort none d = restoring_ended (record d { restoring = true }, some not_loaded)
restore now sort (some rows) d =
    restoring_ended (restore_rows now (sort rows) [] (record d { restoring = true }))
