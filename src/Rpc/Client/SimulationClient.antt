-- ===== src/Rpc/Client/SimulationClient.antt =====
-- `SimulationServiceClient`.
use minerva_server.Std.Status.{Status}
use minerva_server.Proto.Simulation.{
  GetSimulationInfoRequest, GetSimulationInfoResponse, SubscribeSimulationUpdatesRequest,
  SubscribeSimulationUpdatesResponse,
}
use minerva_server.Rpc.Tonic
use minerva_server.Rpc.Tonic.{Interceptors}
use minerva_server.Rpc.Ready.{when_ready}
use minerva_server.Prelude.{Result, ok, ◌>>=◌, ℕ}

module _ {Stream : Type 0 → Type 0} (tonic : Tonic.Client Stream) where
  pub record SimulationServiceClient (T : Type 0) : Type 0 where
    pub inner : tonic.Grpc T

  unfoldable pub new : {T : Type 0} → T → SimulationServiceClient T
  new inner = record { inner = tonic.new inner }

  unfoldable pub with_origin : {T : Type 0} → T → tonic.Uri → SimulationServiceClient T
  with_origin inner origin = record { inner = tonic.with_origin inner origin }

  unfoldable pub connect :
      {D Endpoint Channel E : Type 0}
      → (D → Result Endpoint E)
      → (Endpoint → Result Channel E)
      → D
      → Result (SimulationServiceClient Channel) E
  connect to_endpoint to_channel dst =
      to_endpoint dst >>= λ endpoint. to_channel endpoint >>= λ conn. ok (new conn)

  unfoldable pub with_interceptor :
      (service : Interceptors) {T F : Type 0}
      → T
      → F
      → SimulationServiceClient (service.InterceptedService T F)
  with_interceptor service inner interceptor = new (service.intercept inner interceptor)

  module _ {T : Type 0} (self : SimulationServiceClient T) where
    unfoldable pub send_compressed : tonic.Encoding → SimulationServiceClient T
    send_compressed encoding = record self { inner = tonic.send_compressed self.inner encoding }

    unfoldable pub accept_compressed : tonic.Encoding → SimulationServiceClient T
    accept_compressed encoding = record self { inner = tonic.accept_compressed self.inner encoding }

    unfoldable pub max_decoding_message_size : ℕ → SimulationServiceClient T
    max_decoding_message_size limit = record self {
      inner = tonic.max_decoding_message_size self.inner limit;
    }

    unfoldable pub max_encoding_message_size : ℕ → SimulationServiceClient T
    max_encoding_message_size limit = record self {
      inner = tonic.max_encoding_message_size self.inner limit;
    }

    unfoldable pub get_simulation_info :
        tonic.Request GetSimulationInfoRequest → Result GetSimulationInfoResponse Status
    get_simulation_info request =
        let req =
          tonic.insert request
            (record { service = "minerva.v1.SimulationService"; method = "GetSimulationInfo" }) in
        when_ready (tonic.ready self.inner)
          (tonic.unary self.inner req "/minerva.v1.SimulationService/GetSimulationInfo")

    unfoldable pub subscribe_simulation_updates :
        tonic.Request SubscribeSimulationUpdatesRequest
        → Result (Stream SubscribeSimulationUpdatesResponse) Status
    subscribe_simulation_updates request =
        let req = tonic.insert request (record {
          service = "minerva.v1.SimulationService";
          method = "SubscribeSimulationUpdates";
        }) in
        when_ready (tonic.ready self.inner) (
          tonic.server_streaming self.inner req
            "/minerva.v1.SimulationService/SubscribeSimulationUpdates")
