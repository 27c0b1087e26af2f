-- ===== src/Content/Reload/Stranded.antt =====
-- ClearEmittedForReload (internal/job/content.go) on a job without a failed article.
use sabnzbd_go.Base.{
  [], arith, false, leb, ltb, not, refl, some, suc, true, zero, ℕ, ◌&&◌, ◌+◌, ◌<◌, ◌≡◌,
}
use sabnzbd_go.Base.Result.{ok}
use sabnzbd_go.Content.Bitset.{Bitset, clear_bit, get_bit}
use sabnzbd_go.Content.Bitset.Laws.{IsBitset, clear_bit-IsBitset, get_bit-clear_bit}
use sabnzbd_go.Content.Bulk.{for_each_unfinished_article}
use sabnzbd_go.Content.Doors.{Content, with_progress}
use sabnzbd_go.Content.Manifest.{Manifest, num_articles}
use sabnzbd_go.Content.Progress.{JobProgress, reset_for_reload}
use sabnzbd_go.Content.Progress.Marks.{IsCounted}
use sabnzbd_go.Content.Reload.{clear_emitted_for_reload, reload_articles, reload_figures}

clear_from : ℕ → ℕ → Bitset → Bitset
clear_from lo zero b = b
clear_from lo (suc k) b = clear_from (lo + 1) k (clear_bit b lo)

clear_from-IsBitset : (lo k : ℕ) (b : Bitset) → IsBitset b → IsBitset (clear_from lo k b)
unfolding clear_from
clear_from-IsBitset lo zero b v = v
clear_from-IsBitset lo (suc k) b v =
    clear_from-IsBitset (lo + 1) k (clear_bit b lo) (clear_bit-IsBitset b lo v)

get_bit-clear_from :
    (lo k : ℕ) (b : Bitset) (j : ℕ)
    → IsBitset b
    → get_bit (clear_from lo k b) j ≡ (get_bit b j && not (leb lo j && ltb j (lo + k)))
unfolding clear_from
get_bit-clear_from lo zero b j v = ground arith
get_bit-clear_from lo (suc k) b j v = ground (
  arith,
  get_bit-clear_from (lo + 1) k (clear_bit b lo) j (clear_bit-IsBitset b lo v),
  get_bit-clear_bit b lo j v,
)

-- With no failed article, only the bits of what is in flight are cleared.
reload_articles-idle :
    (m : Manifest) (lo k : ℕ) (p : JobProgress)
    → ((j : ℕ) → get_bit p.failed j ≡ false)
    → reload_articles m true lo k p ≡ (record p { emitted = clear_from lo k p.emitted }, [], [])
unfolding reload_articles reset_for_reload clear_from
reload_articles-idle m lo zero p f = refl
reload_articles-idle m lo (suc k) p f =
    rw
      (
        f lo,
        reload_articles-idle m (lo + 1) k (record p { emitted = clear_bit p.emitted lo }) f,
        f lo,
      )
      refl

-- Clearing for a reload a job whose articles are all done or in flight, where none has failed, leaves
-- none in flight and changes no other bit, but leaves the figures as they were: the next walk over the
-- unfinished articles hands over none, whatever articles were in flight.
pub clear_emitted_for_reload-stranded :
    (c : Content) (m : Manifest) (p : JobProgress)
    → c.manifest ≡ some m
    → c.progress ≡ some p
    → IsCounted m p
    → ((j : ℕ) → get_bit p.failed j ≡ false)
    → p.pending_articles ≡ 0
    → (q : JobProgress) × (clear_emitted_for_reload false c ≡ ok (with_progress c q, [], []))
      × (q.done ≡ p.done)
      × (q.failed ≡ p.failed)
      × ((j : ℕ) → j < num_articles m → get_bit q.emitted j ≡ false)
      × (for_each_unfinished_article (with_progress c q) ≡ ok [])
unfolding clear_emitted_for_reload reload_figures for_each_unfinished_article
clear_emitted_for_reload-stranded c m p hm hp v f z = (
  record p { emitted = clear_from 0 (num_articles m) p.emitted },
  rw (hm, hp, reload_articles-idle m 0 (num_articles m) p f) refl,
  refl,
  refl,
  λ j l. ground (arith, get_bit-clear_from 0 (num_articles m) p.emitted j v.emitted_bits),
  rw (hm, z) refl,
)
