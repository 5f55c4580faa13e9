-- ===== src/Meta/Uploads/Page.antt =====
-- internal/meta/store.go: ListUploads ends, and its page is not longer than what was asked for.
use opens.Prelude.{
  ℕ, ◌+◌, ◌≤◌, ◌≡◌, refl, true, false, [], ◌∷◌, ◌++◌, Bytes, has_prefix, length, length-append, leb,
  arith, if_elim, option_elim,
}
use opens.Kv.{Engine}
use opens.Meta.Keys.{upload_scan_prefix, split_upload_key}
use opens.Meta.Keys.Parts.{upload_scan_prefix-has_prefix, split_upload_key-prefix}
use opens.Meta.Types.{Upload}
use opens.Meta.Store.{Codec, undecodable}
use opens.Meta.Scan.{Scanned, done, broken, panicked, endless, Move, leave}
use opens.Meta.Scan.Laws.{Moves, scan_enough_lem, first_from-some}
use opens.Meta.Listing.{ListOptions, Collapsed, single, outside, under, collapsed, page_size}
use opens.Meta.Listing.Forward.{NoNul, Falls, collapsed-Falls, jump_to-Moves}
use opens.Meta.Uploads.{
  UploadListResult, cut_short, upload_prefix_step, upload_step, uploads_body, uploads_start,
  list_uploads,
}

module _ (kv : Engine) (uploads : Codec Upload) (tx : kv.Txn) (bucket : Bytes) (opt : ListOptions)
    (np : NoNul opt.prefix) where
  abbrev size : ℕ
  size = page_size opt.max_keys

  -- The number of uploads and common prefixes.
  abbrev pub count : UploadListResult → ℕ
  count res = length res.uploads + length res.prefixes

  -- The page that is returned.
  unfoldable pub Page : Scanned UploadListResult → Type 0
  Page (done res) = (count res ≤ size) × (res.is_truncated ≡ true → count res ≡ size)
  Page (broken e) = e ≡ undecodable
  Page panicked = ⊥
  Page endless = ⊥

  abbrev Open : UploadListResult → Type 0
  Open res = (count res ≤ size) × (res.is_truncated ≡ false)

  Open-Page : (res : UploadListResult) → Open res → Page (done res)
  unfolding Page
  Open-Page res h = (h.0, λ e. ground arith)

  full-Page :
      (res : UploadListResult)
      → Open res
      → leb size (count res) ≡ true
      → Page (cut_short kv uploads tx bucket opt res)
  unfolding Page
  full-Page res h full = (h.0, λ _. ground arith)

  abbrev Goes : Bytes → Move UploadListResult → Type 0
  Goes = Moves (λ _ res. Open res) Page

  upload_step-Goes :
      (k key uid v : Bytes) (res : UploadListResult)
      → Open res
      → Goes k (upload_step kv uploads tx bucket opt key uid v res)
  unfolding upload_step
  upload_step-Goes k key uid v res h =
      if_elim (Goes k) (leb size (count res)) _ _ (full-Page res h) (λ room.
        option_elim (Goes k) (uploads.decode v) _ _ (λ _. undecodable-Page)
          (λ u _. (ground (arith, length-append res.uploads (u ∷ [])), h.1)))
    where
      undecodable-Page : Page (broken undecodable)
      undecodable-Page = unfold Page in refl

  upload_prefix_step-Goes :
      (k cp : Bytes) (res : UploadListResult)
      → has_prefix k (upload_scan_prefix bucket cp) ≡ true
      → Open res
      → Goes k (upload_prefix_step kv uploads tx bucket opt cp res)
  unfolding upload_prefix_step
  upload_prefix_step-Goes k cp res at h =
      if_elim (Goes k) (leb size (count res)) _ _ (full-Page res h) (λ room.
        let res' : UploadListResult = record res {
          prefixes = res.prefixes ++ cp ∷ [];
          next_key = cp;
          next_upload_id = [];
        } in
        let h' : Open res' = (ground (arith, length-append res.prefixes (cp ∷ [])), h.1) in
        jump_to-Moves (λ _ r. Open r) Page (upload_scan_prefix bucket cp) k [] res' at
          (Open-Page res' h') (λ _ _. h'))

  -- What a record does, by what the delimiter does with its key.
  collapsed-Goes :
      (k key uid v : Bytes) (res : UploadListResult) (c : Collapsed)
      → ((cp : Bytes)
          → has_prefix key cp ≡ true
          → has_prefix k (upload_scan_prefix bucket cp) ≡ true)
      → Falls key c
      → Open res
      → Goes k (elim c [
        | outside ↦ leave panicked
        | under cp ↦ upload_prefix_step kv uploads tx bucket opt cp res
        | single ↦ upload_step kv uploads tx bucket opt key uid v res
      ])
  unfolding Falls
  collapsed-Goes k key uid v res outside at f h = absurd f
  collapsed-Goes k key uid v res (under cp) at f h = upload_prefix_step-Goes k cp res (at cp f) h
  collapsed-Goes k key uid v res single at f h = upload_step-Goes k key uid v res h

  uploads_body-Goes :
      (k v : Bytes) (res : UploadListResult)
      → has_prefix k (upload_scan_prefix bucket opt.prefix) ≡ true
      → Open res
      → Goes k (uploads_body kv uploads tx bucket opt k v res)
  unfolding uploads_body
  uploads_body-Goes k v res h o =
      option_elim (Goes k) (split_upload_key k bucket) _ _ (λ _. o)
        (λ (r : Bytes × Bytes) e.
          collapsed-Goes k r.0 r.1 v res (collapsed opt r.0)
            (upload_scan_prefix-has_prefix bucket opt.prefix k r.0 r.1 h e)
            (collapsed-Falls opt r.0 (split_upload_key-prefix bucket opt.prefix k r.0 r.1 h e np))
            o)

  -- ListUploads for a prefix with no NUL byte ends with a page or with the error of a record that cannot
  -- be decoded, and never panics. The page has at most as many uploads and common prefixes as were asked
  -- for, 1000 if the number is not positive, and exactly as many if it is truncated.
  pub list_uploads-Page : Page (list_uploads kv uploads tx bucket opt)
  unfolding list_uploads
  list_uploads-Page =
      let p = upload_scan_prefix bucket opt.prefix in
      scan_enough_lem kv tx p (uploads_body kv uploads tx bucket opt) (λ _ res. Open res) Page
        (λ _ res o _. Open-Page res o)
        (λ at k v res o found. uploads_body-Goes k v res (first_from-some kv tx p at k v found).0 o)
        (uploads_start kv uploads tx bucket opt)
        (record {
          uploads = [];
          prefixes = [];
          is_truncated = false;
          next_key = [];
          next_upload_id = [];
        })
        (omega arith, refl)
