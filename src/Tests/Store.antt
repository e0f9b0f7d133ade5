-- ===== src/Tests/Store.antt =====
-- Syncs of a bucket with one object and with two.
use rucher.Store.Cache.{IsCache}
use rucher.Store.Download.{AreApart}
use rucher.Base.{
  ap, ◌≡◌, ◌∙◌, ◌==◌, ◌∷◌, refl, sym, true, false, none, some, String, List, [], map, arith, eq_iff,
  if◌then◌else◌, string_eq, nat_eq, contains,
}
use rucher.Store.S3.{
  drop_file, sync_from, S3, ObjInfo, Disk, Bucket, sync, listed, dest_of, load_s3_state,
  store_identity, resolve_dest, escapes, elements, rel_elements, drop_object, erase, objects_of,
  fetch_object, place, download, drop_removed, save, finish, finish_with, update_in, update_cache,
  start_clean, sync_objects, revision_of, line_of,
}
use rucher.Store.Inside.{IsInside, sync-IsInside}
use rucher.Store.Mirror.{Succeeds, sync-Succeeds}
use rucher.Base.Dict.{lookup}
use rucher.Base.Text.{concat, cut_prefix, split, join}
use rucher.Base.Path.{join_path}
use rucher.Base.Sort.{sort_by, insert_by}
use rucher.Base.Result.{ok_inj, Result, ok, err}

abbrev s3 : S3
s3 = record { endpoint = "h"; bucket = "b"; prefix = ""; cache_path = "/c" }

abbrev fresh_disk : Disk
fresh_disk = record { present = false; files = []; saved = none }

abbrev bucket : List ObjInfo → (String → Result String) → Bucket
bucket objects object = record {
  client_fault = none;
  listing = map (λ o. ok o) objects;
  object = object;
  clear_fault = none;
  mkdir_fault = none;
  remove_fails = λ path. false;
  save_fault = none;
  sha256 = λ text. text;
}

abbrev file_a : String → ObjInfo
file_a etag = record { key = "a"; etag = etag }

abbrev file_b : ObjInfo
file_b = record { key = "b"; etag = "e3" }

abbrev content : String → String → String
content key etag = if etag == "e1" then "one" else "two"

abbrev initial : Bucket
initial = bucket (file_a "e1" ∷ []) (λ key. ok "one")

abbrev synced_disk : Disk
synced_disk = record {
  present = true;
  files = ("/c/a", "one") ∷ [];
  saved = some (record { store = "h|b|"; objects = ("a", "e1") ∷ [] });
}

sync_runs : sync s3 initial fresh_disk ≡ (ok ("/c", "a\te1\n"), synced_disk)
unfolding sync sync_from listed sync_objects load_s3_state store_identity start_clean update_cache
    update_in finish_with download dest_of resolve_dest escapes elements rel_elements fetch_object
    place finish save drop_removed drop_object drop_file erase objects_of revision_of line_of
    join_path split join cut_prefix concat sort_by insert_by
sync_runs = refl

alone : AreApart s3 initial content ("a" ∷ [])
alone k j ck cj d ak aj = is_a k ck ∙ sym (is_a j cj)
  where
    is_a : (k : String) → contains k ("a" ∷ []) ≡ true → k ≡ "a"
    is_a k c = ground (arith, c, eq_iff "a" k)

foreign : "" ≡ store_identity s3 → IsCache s3 initial content ("a" ∷ []) alone [] []
unfolding store_identity
foreign same = absurd (cc)

served : (text : String) → ok "one" ≡ ok text → text ≡ "one"
served text got = sym (ok_inj "one" text got)

sync-Succeeds_example :
    Succeeds s3 initial content
      ("a" ∷ [])
      alone
      (file_a "e1" ∷ [])
      (refl, tt)
      ((refl, served), tt)
      (refl, tt)
      ("/c", "a\te1\n")
      synced_disk
unfolding load_s3_state listed
sync-Succeeds_example =
    sync-Succeeds s3 initial content ("a" ∷ []) alone (file_a "e1" ∷ []) (refl, tt)
      ((refl, served), tt) (refl, tt) fresh_disk synced_disk ("/c", "a\te1\n") tt foreign refl refl
      sync_runs

abbrev interrupted : Bucket
interrupted =
    bucket (file_a "e2" ∷ file_b ∷ [])
      (λ key. if key == "a" then ok "two" else err "connection reset")

abbrev half_done : Disk
half_done = record synced_disk { files = ("/c/a", "two") ∷ [] }

-- A sync that fails behind a changed object leaves it in the cache with the state of the one before.
failed_sync : (sync s3 interrupted synced_disk).1 ≡ half_done
unfolding sync sync_from listed sync_objects load_s3_state store_identity start_clean update_cache
    update_in finish_with download dest_of resolve_dest escapes elements rel_elements fetch_object
    place finish save drop_removed drop_object drop_file erase objects_of revision_of line_of
    join_path split join cut_prefix concat sort_by insert_by
failed_sync = refl

abbrev reverted : Bucket
reverted = bucket (file_a "e1" ∷ file_b ∷ []) (λ key. if key == "a" then ok "one" else ok "three")

-- When the object is changed back, the next sync takes the file for the old object.
stale_file : lookup "/c/a" (sync s3 reverted half_done).1.files ≡ some "two"
unfolding sync sync_from listed sync_objects load_s3_state store_identity start_clean update_cache
    update_in finish_with download dest_of resolve_dest escapes elements rel_elements fetch_object
    place finish save drop_removed drop_object drop_file erase objects_of revision_of line_of
    join_path split join cut_prefix concat sort_by insert_by
stale_file = refl

-- a bucket with a key that goes up
abbrev hostile : Bucket
hostile =
    bucket (file_a "e1" ∷ record { key = "../etc/shadow"; etag = "e9" } ∷ []) (λ key. ok "one")

hostile_runs : sync s3 hostile fresh_disk ≡ (
  err "s3 object key escapes cache dir: ../etc/shadow",
  record fresh_disk { present = true; files = ("/c/a", "one") ∷ [] },
)
unfolding sync sync_from listed sync_objects load_s3_state store_identity start_clean update_cache
    update_in finish_with download dest_of resolve_dest escapes elements rel_elements fetch_object
    place finish save drop_removed drop_object drop_file erase objects_of revision_of line_of
    join_path split join cut_prefix concat sort_by insert_by
hostile_runs = refl

sync-IsInside_example : IsInside "/c" "/c/a"
sync-IsInside_example =
    sync-IsInside s3 hostile fresh_disk tt (λ path v found. absurd (cc)) "/c/a" "one"
      (ap (λ p. lookup "/c/a" p.1.files) hostile_runs)
