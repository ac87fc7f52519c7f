-- ===== src/Rpc/Client/UnitClient.antt =====
-- `UnitServiceClient`.
use minerva_server.Std.Status.{Status}
use minerva_server.Proto.Units.{
  GetUnitRequest, GetUnitResponse, ListUnitsRequest, ListUnitsResponse,
}
use minerva_server.Rpc.Tonic
use minerva_server.Rpc.Tonic.{Interceptors}
use minerva_server.Rpc.Ready.{when_ready}
use minerva_server.Prelude.{Result, ok, ◌>>=◌, ℕ}

module _ {Stream : Type 0 → Type 0} (tonic : Tonic.Client Stream) where
  pub record UnitServiceClient (T : Type 0) : Type 0 where
    pub inner : tonic.Grpc T

  unfoldable pub new : {T : Type 0} → T → UnitServiceClient T
  new inner = record { inner = tonic.new inner }

  unfoldable pub with_origin : {T : Type 0} → T → tonic.Uri → UnitServiceClient T
  with_origin inner origin = record { inner = tonic.with_origin inner origin }

  unfoldable pub connect :
      {D Endpoint Channel E : Type 0}
      → (D → Result Endpoint E)
      → (Endpoint → Result Channel E)
      → D
      → Result (UnitServiceClient Channel) E
  connect to_endpoint to_channel dst =
      to_endpoint dst >>= λ endpoint. to_channel endpoint >>= λ conn. ok (new conn)

  unfoldable pub with_interceptor :
      (service : Interceptors) {T F : Type 0}
      → T
      → F
      → UnitServiceClient (service.InterceptedService T F)
  with_interceptor service inner interceptor = new (service.intercept inner interceptor)

  module _ {T : Type 0} (self : UnitServiceClient T) where
    unfoldable pub send_compressed : tonic.Encoding → UnitServiceClient T
    send_compressed encoding = record self { inner = tonic.send_compressed self.inner encoding }

    unfoldable pub accept_compressed : tonic.Encoding → UnitServiceClient T
    accept_compressed encoding = record self { inner = tonic.accept_compressed self.inner encoding }

    unfoldable pub max_decoding_message_size : ℕ → UnitServiceClient T
    max_decoding_message_size limit = record self {
      inner = tonic.max_decoding_message_size self.inner limit;
    }

    unfoldable pub max_encoding_message_size : ℕ → UnitServiceClient T
    max_encoding_message_size limit = record self {
      inner = tonic.max_encoding_message_size self.inner limit;
    }

    unfoldable pub get_unit : tonic.Request GetUnitRequest → Result GetUnitResponse Status
    get_unit request =
        let req =
          tonic.insert request
            (record { service = "minerva.v1.UnitService"; method = "GetUnit" }) in
        when_ready (tonic.ready self.inner)
          (tonic.unary self.inner req "/minerva.v1.UnitService/GetUnit")

    unfoldable pub list_units : tonic.Request ListUnitsRequest → Result ListUnitsResponse Status
    list_units request =
        let req =
          tonic.insert request
            (record { service = "minerva.v1.UnitService"; method = "ListUnits" }) in
        when_ready (tonic.ready self.inner)
          (tonic.unary self.inner req "/minerva.v1.UnitService/ListUnits")
