-- ===== src/Host/Contract/Routing.antt =====
-- The format registry, the frame sinks and the ready-made port evolve the environment.
use embed_bench.Prelude.{ℕ, suc, Option, List}
use embed_bench.Trace.{Origin}
use embed_bench.Host.Monad.{Outside}
use embed_bench.Host.Formats.{frame_accept, send_frame, frame_tx, receive_frame, frame_rx}
use embed_bench.Host.Contract.{Keeps, Tame}
use embed_bench.Host.Contract.Rules.{
  Keeps-call, Keeps-bind, Keeps-then, Keeps-if, Keeps-get, Keeps-pure, Keeps-maybe, Keeps-in_device,
}
use embed_bench.Host.Contract.Recording.{note-Keeps, diagnose-Keeps}
use embed_bench.Host.Contract.Held.{refuse-Keeps, queue-Keeps, deliver_deferred-Keeps}

module _ {ℓ} {W : Type ℓ} (o : Outside W) {n : ℕ} (tame : Tame n o) where
  accept-Keeps :
      (bus format : ℕ) (bytes : Option (List ℕ)) (bits : ℕ)
      → Keeps (suc n) (frame_accept o bus format bytes bits)
  unfolding frame_accept
  accept-Keeps bus format bytes bits = Keeps-bind _ _ (Keeps-get _) λ fs.
      Keeps-maybe _ _ _ (Keeps-pure _)
        λ text. Keeps-then _ _ (diagnose-Keeps o tame _ _) (Keeps-pure _)

  send-Keeps :
      (bus format : ℕ) (bytes : Option (List ℕ)) (bits : ℕ)
      → Keeps (suc n) (send_frame o bus format bytes bits)
  unfolding send_frame
  send-Keeps bus format bytes bits = Keeps-bind _ _ (Keeps-get _) λ device.
      Keeps-if _ _ _ (Keeps-pure _) (
        Keeps-bind _ _ (refuse-Keeps o tame _) λ refused. Keeps-if _ _ _ (Keeps-pure _) (
          Keeps-then _ _ (Keeps-in_device _ (tame.frame_handler device bus format _ bits))
            (Keeps-then _ _ (deliver_deferred-Keeps o tame) (Keeps-pure _))))

  -- frameTx
  pub frame_tx-Keeps :
      (origin : Origin) (bus format : ℕ) (bytes : Option (List ℕ)) (bits : ℕ)
      → Keeps (suc n) (frame_tx o origin bus format bytes bits)
  unfolding frame_tx
  frame_tx-Keeps origin bus format bytes bits =
      Keeps-bind _ _ (accept-Keeps bus format bytes bits) λ accepted.
        Keeps-if _ _ _
          (Keeps-bind _ _ (Keeps-get _)
            λ text. Keeps-then _ _ (note-Keeps o tame _ _ _) (send-Keeps bus format bytes bits))
          (Keeps-pure _)

  receive-Keeps :
      (bus format : ℕ) (bytes : Option (List ℕ)) (bits : ℕ)
      → Keeps (suc n) (receive_frame o bus format bytes bits)
  unfolding receive_frame
  receive-Keeps bus format bytes bits = Keeps-bind _ _ (Keeps-get _) λ receiver.
      Keeps-bind _ _ (Keeps-get _) λ depth. Keeps-if _ _ _ (Keeps-pure tt) (
        Keeps-if _ _ _ (queue-Keeps o tame _)
          (Keeps-call _ (tame.frame_handler receiver bus format _ bits)))

  -- frameRx
  pub frame_rx-Keeps :
      (origin : Origin) (bus format : ℕ) (bytes : Option (List ℕ)) (bits : ℕ)
      → Keeps (suc n) (frame_rx o origin bus format bytes bits)
  unfolding frame_rx
  frame_rx-Keeps origin bus format bytes bits =
      Keeps-bind _ _ (accept-Keeps bus format bytes bits) λ accepted.
        Keeps-if _ _ _
          (Keeps-bind _ _ (Keeps-get _) λ text.
            Keeps-then _ _ (note-Keeps o tame _ _ _)
              (Keeps-then _ _ (receive-Keeps bus format bytes bits) (Keeps-pure _)))
          (Keeps-pure _)
