-- ===== src/Rpc/Server/SimulationServer.antt =====
-- `SimulationService` and `SimulationServiceServer`.
use minerva_server.Std.Status.{Status}
use minerva_server.Proto.Simulation.{
  GetSimulationInfoRequest, GetSimulationInfoResponse, SubscribeSimulationUpdatesRequest,
  SubscribeSimulationUpdatesResponse,
}
use minerva_server.Rpc.Tonic
use minerva_server.Rpc.Tonic.{Interceptors}
use minerva_server.Prelude.{Result, Option, some, none, String, string_eq, if◌then◌else◌, ℕ}

pub record SimulationService (Stream : Type 0 → Type 0) : Type 0 where
  pub get_simulation_info : GetSimulationInfoRequest → Result GetSimulationInfoResponse Status
  pub subscribe_simulation_updates :
      SubscribeSimulationUpdatesRequest → Result (Stream SubscribeSimulationUpdatesResponse) Status

-- `SERVICE_NAME`.
abbrev pub service_name : String
service_name = "minerva.v1.SimulationService"

module _ {Stream : Type 0 → Type 0} {Http Reply : Type 0}
    (tonic : Tonic.Server Stream Http Reply) where
  pub record SimulationServiceServer (T : Type 0) : Type 0 where
    pub inner : T
    pub accept_compression_encodings : tonic.Encodings
    pub send_compression_encodings : tonic.Encodings
    pub max_decoding_message_size : Option ℕ
    pub max_encoding_message_size : Option ℕ

  module _ {T : Type 0} where
    unfoldable pub from_arc : T → SimulationServiceServer T
    from_arc inner = record {
      inner = inner;
      accept_compression_encodings = tonic.none_enabled;
      send_compression_encodings = tonic.none_enabled;
      max_decoding_message_size = none;
      max_encoding_message_size = none;
    }

    unfoldable pub new : T → SimulationServiceServer T
    new inner = from_arc inner

    unfoldable pub with_interceptor :
        (service : Interceptors) {F : Type 0}
        → T
        → F
        → service.InterceptedService (SimulationServiceServer T) F
    with_interceptor service inner interceptor = service.intercept (new inner) interceptor

    unfoldable pub clone : SimulationServiceServer T → SimulationServiceServer T
    clone self = record {
      inner = self.inner;
      accept_compression_encodings = self.accept_compression_encodings;
      send_compression_encodings = self.send_compression_encodings;
      max_decoding_message_size = self.max_decoding_message_size;
      max_encoding_message_size = self.max_encoding_message_size;
    }

    module _ (self : SimulationServiceServer T) where
      unfoldable pub accept_compressed : tonic.Encoding → SimulationServiceServer T
      accept_compressed encoding = record self {
        accept_compression_encodings = tonic.enable self.accept_compression_encodings encoding;
      }

      unfoldable pub send_compressed : tonic.Encoding → SimulationServiceServer T
      send_compressed encoding = record self {
        send_compression_encodings = tonic.enable self.send_compression_encodings encoding;
      }

      unfoldable pub max_decoding_message_size : ℕ → SimulationServiceServer T
      max_decoding_message_size limit = record self { max_decoding_message_size = some limit }

      unfoldable pub max_encoding_message_size : ℕ → SimulationServiceServer T
      max_encoding_message_size limit = record self { max_encoding_message_size = some limit }

      -- The `grpc` of each arm of `call`.
      unfoldable pub grpc : tonic.Grpc
      grpc =
          tonic.apply_max_message_size_config
            (tonic.apply_compression_config tonic.new self.accept_compression_encodings
              self.send_compression_encodings)
            self.max_decoding_message_size self.max_encoding_message_size

  -- The answer to an unknown path.
  unfoldable pub unimplemented : Reply
  unimplemented =
      tonic.insert (tonic.insert tonic.empty tonic.grpc_status tonic.unimplemented_code)
        tonic.content_type tonic.grpc_content_type

  unfoldable pub call : SimulationServiceServer (SimulationService Stream) → String → Http → Reply
  call self path req =
      if string_eq path "/minerva.v1.SimulationService/GetSimulationInfo"
      then tonic.unary (grpc self) self.inner.get_simulation_info req
      else if string_eq path "/minerva.v1.SimulationService/SubscribeSimulationUpdates"
      then tonic.server_streaming (grpc self) self.inner.subscribe_simulation_updates req
      else unimplemented
