-- ===== src/Downloads/Lost.antt =====
-- A model that is asked for when the worker has stopped waiting and has not ended.
use ai_lab.Common.{ℕ, ◌≡◌, refl, true, false, none, arith, nat_key, eqb_iff}
use ai_lab.Common.Dict.{get-put}
use ai_lab.Clients.Text.{Text, text_key, text_eq_iff}
use ai_lab.Downloads.Files.{Bytes, FilePath, RemoteFile, RemoteSet, transfer_id}
use ai_lab.Downloads.Fetch.{Response}
use ai_lab.Downloads.Queue.{
  Object, Manager, leaving, object_of, new_transfer, queue_up, enqueue, take_next, times_out,
  ends_thread, finish,
}
use ai_lab.Downloads.Kept.{is_queued}

module _ (sha256_of : Bytes → Text) (open_range : Text → RemoteFile → ℕ → Response) where
  -- If a model is accepted after the worker's last wait has timed out and before its thread has
  -- ended, then once it has ended the transfer is queued, and nothing that the worker does, nor
  -- another end of a wait, changes that.
  pub enqueue-lost :
      (remote : RemoteSet) (destination : FilePath) (tier : Text) (looks : ℕ) (m : Manager)
      → m.worker ≡ leaving
      → (enqueue remote destination tier m).1 ≡ none
      → let m' = ends_thread (enqueue remote destination tier m).0 in
        (is_queued (object_of (transfer_id remote) m') ≡ true)
        × (take_next m' ≡ m')
        × (finish sha256_of open_range looks m' ≡ m')
        × (times_out m' ≡ m')
  unfolding enqueue take_next finish
  enqueue-lost remote destination tier looks m last accepted =
      let id = transfer_id remote in
      let object : Object = record {
        transfer = new_transfer remote destination tier;
        cancel_set = false;
      } in
      let queued_up : (enqueue remote destination tier m).0 ≡ queue_up remote destination tier m =
        ground (arith, accepted) in
      rw (queued_up, last)
        (
          ground (
            arith,
            get-put id id m.next m.transfers,
            get-put m.next m.next object m.objects,
            text_eq_iff id id,
            eqb_iff m.next m.next,
          ),
          refl,
          refl,
          refl,
        )
