-- ===== src/Rpc/Client/CommandClient.antt =====
-- `CommandServiceClient`.
use minerva_server.Std.Status.{Status}
use minerva_server.Proto.Commands.{SendCommandRequest, SendCommandResponse}
use minerva_server.Rpc.Tonic
use minerva_server.Rpc.Tonic.{Interceptors}
use minerva_server.Rpc.Ready.{when_ready}
use minerva_server.Prelude.{Result, ok, ◌>>=◌, ℕ}

module _ {Stream : Type 0 → Type 0} (tonic : Tonic.Client Stream) where
  pub record CommandServiceClient (T : Type 0) : Type 0 where
    pub inner : tonic.Grpc T

  unfoldable pub new : {T : Type 0} → T → CommandServiceClient T
  new inner = record { inner = tonic.new inner }

  unfoldable pub with_origin : {T : Type 0} → T → tonic.Uri → CommandServiceClient T
  with_origin inner origin = record { inner = tonic.with_origin inner origin }

  unfoldable pub connect :
      {D Endpoint Channel E : Type 0}
      → (D → Result Endpoint E)
      → (Endpoint → Result Channel E)
      → D
      → Result (CommandServiceClient Channel) E
  connect to_endpoint to_channel dst =
      to_endpoint dst >>= λ endpoint. to_channel endpoint >>= λ conn. ok (new conn)

  unfoldable pub with_interceptor :
      (service : Interceptors) {T F : Type 0}
      → T
      → F
      → CommandServiceClient (service.InterceptedService T F)
  with_interceptor service inner interceptor = new (service.intercept inner interceptor)

  module _ {T : Type 0} (self : CommandServiceClient T) where
    unfoldable pub send_compressed : tonic.Encoding → CommandServiceClient T
    send_compressed encoding = record self { inner = tonic.send_compressed self.inner encoding }

    unfoldable pub accept_compressed : tonic.Encoding → CommandServiceClient T
    accept_compressed encoding = record self { inner = tonic.accept_compressed self.inner encoding }

    unfoldable pub max_decoding_message_size : ℕ → CommandServiceClient T
    max_decoding_message_size limit = record self {
      inner = tonic.max_decoding_message_size self.inner limit;
    }

    unfoldable pub max_encoding_message_size : ℕ → CommandServiceClient T
    max_encoding_message_size limit = record self {
      inner = tonic.max_encoding_message_size self.inner limit;
    }

    unfoldable pub send_command :
        tonic.Request SendCommandRequest → Result SendCommandResponse Status
    send_command request =
        let req =
          tonic.insert request
            (record { service = "minerva.v1.CommandService"; method = "SendCommand" }) in
        when_ready (tonic.ready self.inner)
          (tonic.unary self.inner req "/minerva.v1.CommandService/SendCommand")
