-- ===== src/Rpc/Server/CommandServer.antt =====
-- `CommandService` and `CommandServiceServer`.
use minerva_server.Std.Status.{Status}
use minerva_server.Proto.Commands.{SendCommandRequest, SendCommandResponse}
use minerva_server.Rpc.Tonic
use minerva_server.Rpc.Tonic.{Interceptors}
use minerva_server.Prelude.{Result, Option, some, none, String, string_eq, if◌then◌else◌, ℕ}

pub record CommandService : Type 0 where
  pub send_command : SendCommandRequest → Result SendCommandResponse Status

-- `SERVICE_NAME`.
abbrev pub service_name : String
service_name = "minerva.v1.CommandService"

module _ {Stream : Type 0 → Type 0} {Http Reply : Type 0}
    (tonic : Tonic.Server Stream Http Reply) where
  pub record CommandServiceServer (T : Type 0) : Type 0 where
    pub inner : T
    pub accept_compression_encodings : tonic.Encodings
    pub send_compression_encodings : tonic.Encodings
    pub max_decoding_message_size : Option ℕ
    pub max_encoding_message_size : Option ℕ

  module _ {T : Type 0} where
    unfoldable pub from_arc : T → CommandServiceServer T
    from_arc inner = record {
      inner = inner;
      accept_compression_encodings = tonic.none_enabled;
      send_compression_encodings = tonic.none_enabled;
      max_decoding_message_size = none;
      max_encoding_message_size = none;
    }

    unfoldable pub new : T → CommandServiceServer T
    new inner = from_arc inner

    unfoldable pub with_interceptor :
        (service : Interceptors) {F : Type 0}
        → T
        → F
        → service.InterceptedService (CommandServiceServer T) F
    with_interceptor service inner interceptor = service.intercept (new inner) interceptor

    unfoldable pub clone : CommandServiceServer T → CommandServiceServer T
    clone self = record {
      inner = self.inner;
      accept_compression_encodings = self.accept_compression_encodings;
      send_compression_encodings = self.send_compression_encodings;
      max_decoding_message_size = self.max_decoding_message_size;
      max_encoding_message_size = self.max_encoding_message_size;
    }

    module _ (self : CommandServiceServer T) where
      unfoldable pub accept_compressed : tonic.Encoding → CommandServiceServer T
      accept_compressed encoding = record self {
        accept_compression_encodings = tonic.enable self.accept_compression_encodings encoding;
      }

      unfoldable pub send_compressed : tonic.Encoding → CommandServiceServer T
      send_compressed encoding = record self {
        send_compression_encodings = tonic.enable self.send_compression_encodings encoding;
      }

      unfoldable pub max_decoding_message_size : ℕ → CommandServiceServer T
      max_decoding_message_size limit = record self { max_decoding_message_size = some limit }

      unfoldable pub max_encoding_message_size : ℕ → CommandServiceServer T
      max_encoding_message_size limit = record self { max_encoding_message_size = some limit }

      -- The `grpc` of each arm of `call`.
      unfoldable pub grpc : tonic.Grpc
      grpc =
          tonic.apply_max_message_size_config
            (tonic.apply_compression_config tonic.new self.accept_compression_encodings
              self.send_compression_encodings)
            self.max_decoding_message_size self.max_encoding_message_size

  -- The answer to an unknown path.
  unfoldable pub unimplemented : Reply
  unimplemented =
      tonic.insert (tonic.insert tonic.empty tonic.grpc_status tonic.unimplemented_code)
        tonic.content_type tonic.grpc_content_type

  unfoldable pub call : CommandServiceServer (CommandService) → String → Http → Reply
  call self path req =
      if string_eq path "/minerva.v1.CommandService/SendCommand"
      then tonic.unary (grpc self) self.inner.send_command req
      else unimplemented
