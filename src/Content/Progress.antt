-- ===== src/Content/Progress.antt =====
-- internal/job/progress.go: the bits of each article, and the figures kept beside them.
use sabnzbd_go.Base.{
  Option, get_elem?, leb, ltb, none, some, ◌*◌, if◌then◌else◌, Bool, List, String, [], false, not,
  suc, true, zero, ℕ, ◌&&◌, ◌||◌, ◌∷◌,
}
use sabnzbd_go.Base.Words.{add_word, sub_word}
use sabnzbd_go.Content.Bitset.{Bitset, clear_bit, get_bit, set_bit}
use sabnzbd_go.Content.Manifest.{Manifest, bytes_at, file_index_for_article}
pub mod Recompute
pub mod Counted
pub mod Marks
pub mod Recomputed
pub mod Sound

pub data FetchPolicy : Type 0 where
  fetch_always fetch_if_needed fetch_never : FetchPolicy
  fetch_undeclared : ℕ → FetchPolicy

unfoldable pub is_always : FetchPolicy → Bool
is_always fetch_always = true
is_always _ = false

unfoldable pub is_if_needed : FetchPolicy → Bool
is_if_needed fetch_if_needed = true
is_if_needed _ = false

unfoldable pub is_never : FetchPolicy → Bool
is_never fetch_never = true
is_never _ = false

pub record FileProgress : Type 0 where
  pub complete : Bool
  pub fetch : FetchPolicy
  pub pending : ℕ
  pub bytes : ℕ
  pub bytes_downloaded : ℕ
  pub failed_bytes : ℕ
  pub is_par2 : Bool
  pub filename : String
  pub assembled_crc32 : ℕ

pub record JobProgress : Type 0 where
  pub done : Bitset
  pub failed : Bitset
  pub emitted : Bitset
  pub files : List FileProgress
  pub pending_articles : ℕ
  pub articles_resolved : ℕ
  pub articles_failed : ℕ
  pub early_aborted : Bool
  pub failed_bytes : ℕ
  pub server_stats : List (String × ℕ)
  pub download_started : ℕ
  pub download_finished : ℕ
  pub par2_recovered : Bool
  pub par2_release_reason : String

-- `p.files[fi]` changed in place; past the end, which panics, nothing changes.
unfoldable pub change_file :
    ℕ → (FileProgress → FileProgress) → List FileProgress → List FileProgress
change_file fi g [] = []
change_file zero g (f ∷ fs) = g f ∷ fs
change_file (suc fi) g (f ∷ fs) = f ∷ change_file fi g fs

unfoldable pub less_pending : FileProgress → FileProgress
less_pending f = record f { pending = sub_word f.pending 1 }

unfoldable pub more_pending : FileProgress → FileProgress
more_pending f = record f { pending = add_word f.pending 1 }

abbrev pub file_complete : Option FileProgress → Bool
file_complete none = false
file_complete (some f) = f.complete

unfoldable pub mark_emitted : Manifest → ℕ → JobProgress → JobProgress
mark_emitted m i p = if get_bit p.emitted i || get_bit p.done i then p else record p {
  emitted = set_bit p.emitted i;
  files = change_file (file_index_for_article m i) less_pending p.files;
  pending_articles = sub_word p.pending_articles 1;
}

unfoldable pub clear_emitted : Manifest → ℕ → JobProgress → JobProgress
clear_emitted m i p =
    if get_bit p.emitted i && not (get_bit p.done i)
    then record p {
      emitted = clear_bit p.emitted i;
      files = change_file (file_index_for_article m i) more_pending p.files;
      pending_articles = add_word p.pending_articles 1;
    }
    else if get_bit p.emitted i
    then record p { emitted = clear_bit p.emitted i }
    else p

-- What markDone and markFailed do first: an article that was not in flight was pending.
unfoldable pub resolve_pending : Bool → FileProgress → FileProgress
unfolding less_pending
resolve_pending in_flight f = if in_flight then f else less_pending f

unfoldable pub mark_done : Manifest → ℕ → JobProgress → JobProgress × Bool
mark_done m i p = if get_bit p.done i then (p, false) else (
  record p {
    done = set_bit p.done i;
    emitted = clear_bit p.emitted i;
    files =
        change_file (file_index_for_article m i)
          (λ f.
            let f' = resolve_pending (get_bit p.emitted i) f in
            record f' { bytes_downloaded = add_word f'.bytes_downloaded (bytes_at m i) })
          p.files;
    pending_articles =
        if get_bit p.emitted i then p.pending_articles else sub_word p.pending_articles 1;
    articles_resolved = add_word p.articles_resolved 1;
  },
  true,
)

unfoldable pub mark_failed : Manifest → ℕ → JobProgress → JobProgress × Bool
mark_failed m i p = if get_bit p.done i then (p, false) else (
  record p {
    done = set_bit p.done i;
    failed = set_bit p.failed i;
    emitted = clear_bit p.emitted i;
    files =
        change_file (file_index_for_article m i)
          (λ f.
            let f' = resolve_pending (get_bit p.emitted i) f in
            record f' { failed_bytes = add_word f'.failed_bytes (bytes_at m i) })
          p.files;
    pending_articles =
        if get_bit p.emitted i then p.pending_articles else sub_word p.pending_articles 1;
    failed_bytes = add_word p.failed_bytes (bytes_at m i);
    articles_resolved = add_word p.articles_resolved 1;
    articles_failed = add_word p.articles_failed 1;
  },
  true,
)

unfoldable pub mark_not_done : ℕ → JobProgress → JobProgress × Bool
mark_not_done i p =
    if not (get_bit p.done i) || get_bit p.failed i
    then (p, false)
    else (record p { done = clear_bit p.done i }, true)

unfoldable pub reset_for_reload : Manifest → ℕ → Bool → JobProgress → JobProgress × Bool
reset_for_reload m i clear p =
    let p' = if clear then record p { emitted = clear_bit p.emitted i } else p in
    if not (get_bit p.failed i) || file_complete (get_elem? p.files (file_index_for_article m i))
    then (p', false)
    else (
      record p' {
        done = clear_bit p.done i;
        failed = clear_bit p.failed i;
        failed_bytes = sub_word p.failed_bytes (bytes_at m i);
        files =
            change_file (file_index_for_article m i)
              (λ f. record f { failed_bytes = sub_word f.failed_bytes (bytes_at m i) }) p.files;
      },
      true,
    )

-- 0.80 of the sample, and a sample of at least 10.
unfoldable pub is_early_abort : JobProgress → JobProgress × Bool
is_early_abort p =
    if p.early_aborted || ltb p.articles_resolved 10
    then (p, false)
    else if leb (4 * p.articles_resolved) (5 * p.articles_failed)
    then (record p { early_aborted = true }, true)
    else (p, false)
