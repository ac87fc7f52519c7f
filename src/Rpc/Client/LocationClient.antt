-- ===== src/Rpc/Client/LocationClient.antt =====
-- `LocationServiceClient`.
use minerva_server.Std.Status.{Status}
use minerva_server.Proto.Simulation.{ListLocationsRequest, ListLocationsResponse}
use minerva_server.Rpc.Tonic
use minerva_server.Rpc.Tonic.{Interceptors}
use minerva_server.Rpc.Ready.{when_ready}
use minerva_server.Prelude.{Result, ok, ◌>>=◌, ℕ}

module _ {Stream : Type 0 → Type 0} (tonic : Tonic.Client Stream) where
  pub record LocationServiceClient (T : Type 0) : Type 0 where
    pub inner : tonic.Grpc T

  unfoldable pub new : {T : Type 0} → T → LocationServiceClient T
  new inner = record { inner = tonic.new inner }

  unfoldable pub with_origin : {T : Type 0} → T → tonic.Uri → LocationServiceClient T
  with_origin inner origin = record { inner = tonic.with_origin inner origin }

  unfoldable pub connect :
      {D Endpoint Channel E : Type 0}
      → (D → Result Endpoint E)
      → (Endpoint → Result Channel E)
      → D
      → Result (LocationServiceClient Channel) E
  connect to_endpoint to_channel dst =
      to_endpoint dst >>= λ endpoint. to_channel endpoint >>= λ conn. ok (new conn)

  unfoldable pub with_interceptor :
      (service : Interceptors) {T F : Type 0}
      → T
      → F
      → LocationServiceClient (service.InterceptedService T F)
  with_interceptor service inner interceptor = new (service.intercept inner interceptor)

  module _ {T : Type 0} (self : LocationServiceClient T) where
    unfoldable pub send_compressed : tonic.Encoding → LocationServiceClient T
    send_compressed encoding = record self { inner = tonic.send_compressed self.inner encoding }

    unfoldable pub accept_compressed : tonic.Encoding → LocationServiceClient T
    accept_compressed encoding = record self { inner = tonic.accept_compressed self.inner encoding }

    unfoldable pub max_decoding_message_size : ℕ → LocationServiceClient T
    max_decoding_message_size limit = record self {
      inner = tonic.max_decoding_message_size self.inner limit;
    }

    unfoldable pub max_encoding_message_size : ℕ → LocationServiceClient T
    max_encoding_message_size limit = record self {
      inner = tonic.max_encoding_message_size self.inner limit;
    }

    unfoldable pub list_locations :
        tonic.Request ListLocationsRequest → Result ListLocationsResponse Status
    list_locations request =
        let req =
          tonic.insert request
            (record { service = "minerva.v1.LocationService"; method = "ListLocations" }) in
        when_ready (tonic.ready self.inner)
          (tonic.unary self.inner req "/minerva.v1.LocationService/ListLocations")
