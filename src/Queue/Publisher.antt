-- ===== src/Queue/Publisher.antt =====
-- internal/queue/producers/publisher.go. The payloads are structs and texts, whose JSON encoding
-- does not fail.
use Prim.Native.String.{◌++◌}
use emailservice_worker.Prelude.{String}
use emailservice_worker.Types.{Payload}
use emailservice_worker.Effect.{M, pure, try, js_publish}
use emailservice_worker.Effect.Errors.{Result, ok, err, wrap}

unfoldable pub publish : String → Payload → String → M (Result Unit)
publish subject payload msg_id =
    try (js_publish (record { subject = subject; payload = payload; msg_id = msg_id }))
      (λ x. pure (err (wrap ("publish " ++ subject) x))) (λ _. pure (ok tt))
