-- ===== src/Downloads/Examples.antt =====
-- One model of one file of three bytes, whose SHA-256 is taken to be its bytes.
use ai_lab.Common.{
  ◌<◌, ◌≤◌, map, ℕ, ◌≡◌, refl, ◌≢◌, Bool, true, false, Option, none, some, List, [], ◌∷◌, arith,
  zero, suc,
}
use ai_lab.Common.Dict.{Dict, get}
use ai_lab.Clients.Text.{Text, codes, text_key}
use ai_lab.Downloads.Files.{
  Bytes, FilePath, RemoteFile, RemoteSet, Disk, file_name, folder_at, working_of, transfer_id,
  path_key,
}
use ai_lab.Downloads.Fetch.{
  failed, cancelled, refused, wrong_contents, Transfer, chunk, Response, refuses, serves,
  already_there,
}
use ai_lab.Downloads.Publish.{Left, download}
use ai_lab.Downloads.Complete.{Publishes, download-Publishes}
use ai_lab.Downloads.Placed.{library}
use ai_lab.Downloads.Stuck.{kept_wrong_contents, kept_whole_part, Waits, retried}
use ai_lab.Downloads.Ended.{HasEnded, download-HasEnded}
use ai_lab.Downloads.Queue.{
  Manager, leaving, new_transfer, new_manager, enqueue, cancel, take_next, finish, times_out,
  ends_thread, object_of, starts, steps, enqueues,
}
use ai_lab.Downloads.Kept.{is_queued, has_plan, in_queue, Reach-IsKept}
use ai_lab.Common.Tally.{tally}
use ai_lab.Downloads.Listing.{group}
use ai_lab.Downloads.Grouped.{wanted, tally_sets, tally-group}
use ai_lab.Downloads.Lost.{enqueue-lost}

abbrev bytes : Bytes
bytes = 7 ∷ 8 ∷ 9 ∷ []

abbrev weights : RemoteFile
weights = record { path = codes "gguf/m.gguf"; size_bytes = 3; repo = []; sha256 = bytes }

abbrev model : RemoteSet
model = record {
  repo = codes "r";
  name = codes "m";
  files = weights ∷ [];
  complete = true;
  missing = [];
}

abbrev place : FilePath
place = codes "models" ∷ codes "m" ∷ []

abbrev hash : Bytes → Text
hash content = content

-- A server that refuses to serve from the end of the file.
abbrev serve_from : ℕ → Response
serve_from zero = serves (chunk (7 ∷ 8 ∷ []) ∷ chunk (9 ∷ []) ∷ [])
serve_from (suc zero) = serves (chunk (8 ∷ 9 ∷ []) ∷ [])
serve_from (suc (suc zero)) = serves (chunk (9 ∷ []) ∷ [])
serve_from (suc (suc (suc n))) = refuses (codes "416")

abbrev server : Text → RemoteFile → ℕ → Response
server repo item resume_from = serve_from resume_from

abbrev new : Transfer
new = new_transfer model place (codes "core")

abbrev work_place : FilePath
work_place = working_of place new.id

abbrev content_at : FilePath → Left → Option Bytes
content_at path left = get (codes "m.gguf") (folder_at path left.disk)

fetched : content_at place (download hash server new model place none []) ≡ some bytes
unfolding download get folder_at file_name transfer_id ai_lab.Common.Dict.put ai_lab.Common.Dict.pop
fetched = refl

-- Cancelled at the third look: two bytes stay in the working folder, and a retry goes on from them.
abbrev cut : Left
cut = download hash server new model place (some 2) []

cut_state : cut.transfer.state ≡ cancelled
unfolding download get folder_at file_name transfer_id
cut_state = refl

resumed : content_at place (download hash server new model place none cut.disk) ≡ some bytes
unfolding download get folder_at file_name transfer_id ai_lab.Common.Dict.put ai_lab.Common.Dict.pop
resumed = refl

-- Cancelled at the look behind the last byte: the part is whole, and a retry is refused.
refused_for_good :
    (download hash server new model place none
      (download hash server new model place (some 3) []).disk).transfer.error
    ≡ some (refused (codes "416"))
unfolding download get folder_at file_name transfer_id ai_lab.Common.Dict.put
refused_for_good = refl

download-Publishes_example :
    Publishes hash place
      (weights ∷ [])
      (download hash server new model place none []).transfer.state
      (library work_place [])
      (library work_place (download hash server new model place none []).disk)
download-Publishes_example = download-Publishes hash server place model (tt, tt) new none []

abbrev bad_disk : Disk
bad_disk = (work_place, (codes "m.gguf", 1 ∷ 2 ∷ 3 ∷ []) ∷ []) ∷ []

kept_wrong_contents_example :
    ((download hash server new model place none bad_disk).transfer.state ≡ failed)
    × ((download hash server new model place none bad_disk).transfer.error
        ≡ some (wrong_contents (file_name weights)))
    × (folder_at work_place (download hash server new model place none bad_disk).disk
        ≡ folder_at work_place bad_disk)
unfolding get folder_at file_name transfer_id already_there working_of
kept_wrong_contents_example =
    kept_wrong_contents hash server new place model weights bad_disk (1 ∷ 2 ∷ 3 ∷ []) refl refl refl
      refl (ground arith) (ground arith)

-- What that cancelled attempt leaves.
abbrev part_disk : Disk
part_disk = (download hash server new model place (some 3) []).disk

end_refused :
    (start : ℕ) → 0 < start → 3 ≤ start → server (codes "r") weights start ≡ refuses (codes "416")
end_refused (suc (suc (suc n))) positive behind = refl
end_refused zero positive behind = absurd (omega arith)
end_refused (suc zero) positive behind = absurd (omega arith)
end_refused (suc (suc zero)) positive behind = absurd (omega arith)

part_waits : Waits hash server new place model weights part_disk bytes part_disk
unfolding download get folder_at file_name transfer_id already_there working_of
    ai_lab.Common.Dict.put ai_lab.Common.Dict.pop
part_waits = (refl, refl, refl)

kept_whole_part_example :
    let left =
      download hash server new model place none
        (retried hash server new place model weights part_disk bytes 7) in
    (left.transfer.state ≡ failed)
    × (left.transfer.error ≡ some (refused (codes "416")))
    × ((path : FilePath) → folder_at path left.disk ≡ folder_at path part_disk)
kept_whole_part_example =
    kept_whole_part hash server new place model weights part_disk bytes (codes "416") refl
      (omega arith) refl end_refused part_waits 7

cut_download_ends : HasEnded (download hash server new model place (some 2) []).transfer.state
cut_download_ends = download-HasEnded hash server new model place (some 2) []

abbrev asked : Manager
asked = (enqueue model place (codes "core") (new_manager hash server [])).0

Reach-IsKept_example :
    (has_plan (get (transfer_id model) asked.plans) ≡ true)
    × (in_queue (transfer_id model) asked.queue ≡ true)
unfolding get enqueue transfer_id ai_lab.Common.Dict.put
Reach-IsKept_example =
    Reach-IsKept hash server [] (transfer_id model)
      (steps starts (enqueues model place (codes "core"))) refl

abbrev late : Manager
late = record (new_manager hash server []) { worker = leaving }

enqueue-lost_example :
    let m' = ends_thread (enqueue model place (codes "core") late).0 in
    (is_queued (object_of (transfer_id model) m') ≡ true)
    × (take_next m' ≡ m')
    × (finish hash server 0 m' ≡ m')
    × (times_out m' ≡ m')
unfolding get enqueue transfer_id
enqueue-lost_example = enqueue-lost hash server model place (codes "core") 0 late refl refl

-- Two models in one folder with a tokenizer, and one in another.
abbrev listed : Text → RemoteFile
listed path = record { path = path; size_bytes = 9; repo = []; sha256 = [] }

abbrev listing : List RemoteFile
listing =
    listed (codes "q/b.gguf")
    ∷ listed (codes "q/tokenizer.json")
    ∷ listed (codes "q/a-00002-of-00002.gguf")
    ∷ listed (codes "c.gguf")
    ∷ listed (codes "q/a-00001-of-00002.gguf")
    ∷ []

names_found :
    map (λ (s : RemoteSet). s.name) (group (codes "r") listing)
    ≡ codes "c" ∷ codes "q/a" ∷ codes "q/b" ∷ []
unfolding group
names_found = refl

tally-group_example :
    tally_sets (λ item. true) (group (codes "r") listing) ≡ tally (wanted (λ item. true)) listing
tally-group_example = tally-group (λ item. true) (codes "r") listing

-- Cancelled while it is queued and asked for again, a model is downloaded twice.
abbrev twice : Manager
twice =
    finish hash server 0
      (take_next (enqueue model place (codes "core") (cancel (transfer_id model) asked).0).0)

twice_queue : twice.queue ≡ transfer_id model ∷ []
unfolding get enqueue transfer_id cancel take_next finish download folder_at file_name
    ai_lab.Common.Dict.put
twice_queue = refl
