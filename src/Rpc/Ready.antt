-- ===== src/Rpc/Ready.antt =====
-- How every generated call begins.
use minerva_server.Std.Status.{Status, unknown}
use minerva_server.Prelude.{Result, ok, err, String, ◌++ₛ◌}

-- `self.inner.ready().await.map_err(..)?`, and then the call.
unfoldable pub when_ready : {A : Type 0} → Result Unit String → Result A Status → Result A Status
when_ready (ok _) answer = answer
when_ready (err e) answer =
    err (record { code = unknown; message = "Service was not ready: " ++ₛ e })
