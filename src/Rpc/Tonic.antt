-- ===== src/Rpc/Tonic.antt =====
-- What the generated clients and servers use of tonic: its `Grpc` on either side, its encodings, its
-- requests and its interceptors.
use minerva_server.Std.Status.{Status}
use minerva_server.Prelude.{Option, Result, String, ℕ}

-- `tonic::GrpcMethod`, with the arguments of its `new`.
pub record GrpcMethod : Type 0 where
  pub service : String
  pub method : String

-- `InterceptedService` and its `new`.
pub record Interceptors : Type 1 where
  pub InterceptedService : Type 0 → Type 0 → Type 0
  pub intercept : {S F : Type 0} → S → F → InterceptedService S F

-- `tonic::client::Grpc`: its constructors, its builder, and its calls. What ends a wait for the
-- service is shown as a string.
pub record Client (Stream : Type 0 → Type 0) : Type 1 where
  pub Grpc : Type 0 → Type 0
  pub Uri : Type 0
  pub Encoding : Type 0
  pub Request : Type 0 → Type 0
  pub insert : {A : Type 0} → Request A → GrpcMethod → Request A
  pub new : {T : Type 0} → T → Grpc T
  pub with_origin : {T : Type 0} → T → Uri → Grpc T
  pub send_compressed : {T : Type 0} → Grpc T → Encoding → Grpc T
  pub accept_compressed : {T : Type 0} → Grpc T → Encoding → Grpc T
  pub max_decoding_message_size : {T : Type 0} → Grpc T → ℕ → Grpc T
  pub max_encoding_message_size : {T : Type 0} → Grpc T → ℕ → Grpc T
  pub ready : {T : Type 0} → Grpc T → Result Unit String
  pub unary : {T Req Res : Type 0} → Grpc T → Request Req → String → Result Res Status
  pub server_streaming :
      {T Req Item : Type 0} → Grpc T → Request Req → String → Result (Stream Item) Status

-- `tonic::server::Grpc` and `EnabledCompressionEncodings`: how it is configured, and how it answers
-- a request with a method. Of http, an empty response, and a header that is set in one.
pub record Server (Stream : Type 0 → Type 0) (Http Reply : Type 0) : Type 1 where
  pub Grpc : Type 0
  pub Encoding : Type 0
  pub Encodings : Type 0
  pub none_enabled : Encodings
  pub enable : Encodings → Encoding → Encodings
  pub new : Grpc
  pub apply_compression_config : Grpc → Encodings → Encodings → Grpc
  pub apply_max_message_size_config : Grpc → Option ℕ → Option ℕ → Grpc
  pub unary : {Req Res : Type 0} → Grpc → (Req → Result Res Status) → Http → Reply
  pub server_streaming :
      {Req Item : Type 0} → Grpc → (Req → Result (Stream Item) Status) → Http → Reply
  pub empty : Reply
  pub HeaderName : Type 0
  pub HeaderValue : Type 0
  pub insert : Reply → HeaderName → HeaderValue → Reply
  pub grpc_status : HeaderName
  pub content_type : HeaderName
  pub unimplemented_code : HeaderValue
  pub grpc_content_type : HeaderValue
