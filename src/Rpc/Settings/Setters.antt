-- ===== src/Rpc/Settings/Setters.antt =====
-- The builders of the five generated clients, and tonic's own.
use minerva_server.Rpc.Tonic
use minerva_server.Rpc.Settings.{
  Setting, accept_compressed, send_compressed, max_decoding_message_size, max_encoding_message_size,
  build,
}
use minerva_server.Rpc.Client.CommandClient
use minerva_server.Rpc.Client.CommandClient.{CommandServiceClient}
use minerva_server.Rpc.Client.UnitClient
use minerva_server.Rpc.Client.UnitClient.{UnitServiceClient}
use minerva_server.Rpc.Client.GroupClient
use minerva_server.Rpc.Client.GroupClient.{GroupServiceClient}
use minerva_server.Rpc.Client.LocationClient
use minerva_server.Rpc.Client.LocationClient.{LocationServiceClient}
use minerva_server.Rpc.Client.SimulationClient
use minerva_server.Rpc.Client.SimulationClient.{SimulationServiceClient}
use minerva_server.Prelude.{◌≡◌, refl, ap, ◌∙◌, List, [], ◌∷◌}

module _ {Stream : Type 0 → Type 0} (tonic : Tonic.Client Stream) where
  -- tonic's own builder.
  abbrev pub set_grpc : {T : Type 0} → tonic.Grpc T → Setting tonic.Encoding → tonic.Grpc T
  set_grpc g (accept_compressed e) = tonic.accept_compressed g e
  set_grpc g (send_compressed e) = tonic.send_compressed g e
  set_grpc g (max_decoding_message_size n) = tonic.max_decoding_message_size g n
  set_grpc g (max_encoding_message_size n) = tonic.max_encoding_message_size g n

  -- A view of a builder that each call commutes with commutes with a sequence of calls.
  build-ap :
      {S G X : Type 0} (view : S → G) (apply : S → X → S) (set : G → X → G)
      → ((s : S) (x : X) → view (apply s x) ≡ set (view s) x)
      → (s : S) (xs : List X) → view (build apply s xs) ≡ build set (view s) xs
  build-ap view apply set law s [] = refl
  build-ap view apply set law s (x ∷ xs) =
      build-ap view apply set law (apply s x) xs ∙ ap (λ g. build set g xs) (law s x)

  abbrev pub set_command :
      {T : Type 0}
      → CommandServiceClient tonic T
      → Setting tonic.Encoding
      → CommandServiceClient tonic T
  set_command s (accept_compressed e) = CommandClient.accept_compressed tonic s e
  set_command s (send_compressed e) = CommandClient.send_compressed tonic s e
  set_command s (max_decoding_message_size n) = CommandClient.max_decoding_message_size tonic s n
  set_command s (max_encoding_message_size n) = CommandClient.max_encoding_message_size tonic s n

  pub inner-build_command :
      {T : Type 0} (conn : T) (xs : List (Setting tonic.Encoding))
      → (build set_command (CommandClient.new tonic conn) xs).inner
        ≡ build set_grpc (tonic.new conn) xs
  unfolding CommandClient.new CommandClient.accept_compressed CommandClient.send_compressed
      CommandClient.max_decoding_message_size CommandClient.max_encoding_message_size
  inner-build_command conn =
      build-ap (λ (s : CommandServiceClient tonic _). s.inner) set_command set_grpc
        (λ s. elim [
          | accept_compressed e ↦ refl
          | send_compressed e ↦ refl
          | max_decoding_message_size n ↦ refl
          | max_encoding_message_size n ↦ refl
        ])
        (CommandClient.new tonic conn)

  abbrev pub set_unit :
      {T : Type 0} → UnitServiceClient tonic T → Setting tonic.Encoding → UnitServiceClient tonic T
  set_unit s (accept_compressed e) = UnitClient.accept_compressed tonic s e
  set_unit s (send_compressed e) = UnitClient.send_compressed tonic s e
  set_unit s (max_decoding_message_size n) = UnitClient.max_decoding_message_size tonic s n
  set_unit s (max_encoding_message_size n) = UnitClient.max_encoding_message_size tonic s n

  pub inner-build_unit :
      {T : Type 0} (conn : T) (xs : List (Setting tonic.Encoding))
      → (build set_unit (UnitClient.new tonic conn) xs).inner ≡ build set_grpc (tonic.new conn) xs
  unfolding UnitClient.new UnitClient.accept_compressed UnitClient.send_compressed
      UnitClient.max_decoding_message_size UnitClient.max_encoding_message_size
  inner-build_unit conn =
      build-ap (λ (s : UnitServiceClient tonic _). s.inner) set_unit set_grpc
        (λ s. elim [
          | accept_compressed e ↦ refl
          | send_compressed e ↦ refl
          | max_decoding_message_size n ↦ refl
          | max_encoding_message_size n ↦ refl
        ])
        (UnitClient.new tonic conn)

  abbrev pub set_group :
      {T : Type 0}
      → GroupServiceClient tonic T
      → Setting tonic.Encoding
      → GroupServiceClient tonic T
  set_group s (accept_compressed e) = GroupClient.accept_compressed tonic s e
  set_group s (send_compressed e) = GroupClient.send_compressed tonic s e
  set_group s (max_decoding_message_size n) = GroupClient.max_decoding_message_size tonic s n
  set_group s (max_encoding_message_size n) = GroupClient.max_encoding_message_size tonic s n

  pub inner-build_group :
      {T : Type 0} (conn : T) (xs : List (Setting tonic.Encoding))
      → (build set_group (GroupClient.new tonic conn) xs).inner ≡ build set_grpc (tonic.new conn) xs
  unfolding GroupClient.new GroupClient.accept_compressed GroupClient.send_compressed
      GroupClient.max_decoding_message_size GroupClient.max_encoding_message_size
  inner-build_group conn =
      build-ap (λ (s : GroupServiceClient tonic _). s.inner) set_group set_grpc
        (λ s. elim [
          | accept_compressed e ↦ refl
          | send_compressed e ↦ refl
          | max_decoding_message_size n ↦ refl
          | max_encoding_message_size n ↦ refl
        ])
        (GroupClient.new tonic conn)

  abbrev pub set_location :
      {T : Type 0}
      → LocationServiceClient tonic T
      → Setting tonic.Encoding
      → LocationServiceClient tonic T
  set_location s (accept_compressed e) = LocationClient.accept_compressed tonic s e
  set_location s (send_compressed e) = LocationClient.send_compressed tonic s e
  set_location s (max_decoding_message_size n) = LocationClient.max_decoding_message_size tonic s n
  set_location s (max_encoding_message_size n) = LocationClient.max_encoding_message_size tonic s n

  pub inner-build_location :
      {T : Type 0} (conn : T) (xs : List (Setting tonic.Encoding))
      → (build set_location (LocationClient.new tonic conn) xs).inner
        ≡ build set_grpc (tonic.new conn) xs
  unfolding LocationClient.new LocationClient.accept_compressed LocationClient.send_compressed
      LocationClient.max_decoding_message_size LocationClient.max_encoding_message_size
  inner-build_location conn =
      build-ap (λ (s : LocationServiceClient tonic _). s.inner) set_location set_grpc
        (λ s. elim [
          | accept_compressed e ↦ refl
          | send_compressed e ↦ refl
          | max_decoding_message_size n ↦ refl
          | max_encoding_message_size n ↦ refl
        ])
        (LocationClient.new tonic conn)

  abbrev pub set_simulation :
      {T : Type 0}
      → SimulationServiceClient tonic T
      → Setting tonic.Encoding
      → SimulationServiceClient tonic T
  set_simulation s (accept_compressed e) = SimulationClient.accept_compressed tonic s e
  set_simulation s (send_compressed e) = SimulationClient.send_compressed tonic s e
  set_simulation s (max_decoding_message_size n) =
      SimulationClient.max_decoding_message_size tonic s n
  set_simulation s (max_encoding_message_size n) =
      SimulationClient.max_encoding_message_size tonic s n

  pub inner-build_simulation :
      {T : Type 0} (conn : T) (xs : List (Setting tonic.Encoding))
      → (build set_simulation (SimulationClient.new tonic conn) xs).inner
        ≡ build set_grpc (tonic.new conn) xs
  unfolding SimulationClient.new SimulationClient.accept_compressed SimulationClient.send_compressed
      SimulationClient.max_decoding_message_size SimulationClient.max_encoding_message_size
  inner-build_simulation conn =
      build-ap (λ (s : SimulationServiceClient tonic _). s.inner) set_simulation set_grpc
        (λ s. elim [
          | accept_compressed e ↦ refl
          | send_compressed e ↦ refl
          | max_decoding_message_size n ↦ refl
          | max_encoding_message_size n ↦ refl
        ])
        (SimulationClient.new tonic conn)
