-- ===== src/Rpc/Settings/Builders.antt =====
-- The builders of the five generated servers.
use minerva_server.Rpc.Tonic
use minerva_server.Rpc.Settings.{
  Setting, accept_compressed, send_compressed, max_decoding_message_size, max_encoding_message_size,
  Builder,
}
use minerva_server.Rpc.Server.CommandServer
use minerva_server.Rpc.Server.CommandServer.{CommandServiceServer}
use minerva_server.Rpc.Server.UnitServer
use minerva_server.Rpc.Server.UnitServer.{UnitServiceServer}
use minerva_server.Rpc.Server.GroupServer
use minerva_server.Rpc.Server.GroupServer.{GroupServiceServer}
use minerva_server.Rpc.Server.LocationServer
use minerva_server.Rpc.Server.LocationServer.{LocationServiceServer}
use minerva_server.Rpc.Server.SimulationServer
use minerva_server.Rpc.Server.SimulationServer.{SimulationServiceServer}
use minerva_server.Prelude.{refl}

module _ {Stream : Type 0 → Type 0} {Http Reply : Type 0}
    (tonic : Tonic.Server Stream Http Reply) where
  abbrev pub set_command :
      {T : Type 0}
      → CommandServiceServer tonic T
      → Setting tonic.Encoding
      → CommandServiceServer tonic T
  set_command s (accept_compressed e) = CommandServer.accept_compressed tonic s e
  set_command s (send_compressed e) = CommandServer.send_compressed tonic s e
  set_command s (max_decoding_message_size n) = CommandServer.max_decoding_message_size tonic s n
  set_command s (max_encoding_message_size n) = CommandServer.max_encoding_message_size tonic s n

  unfoldable pub command_builder : {T : Type 0} → Builder tonic T (CommandServiceServer tonic T)
  unfolding CommandServer.new CommandServer.from_arc CommandServer.accept_compressed
      CommandServer.send_compressed CommandServer.max_decoding_message_size
      CommandServer.max_encoding_message_size
  command_builder = record {
    new = CommandServer.new tonic;
    apply = set_command;
    fields = λ s. record {
      inner = s.inner;
      accepts = s.accept_compression_encodings;
      sends = s.send_compression_encodings;
      max_decoding = s.max_decoding_message_size;
      max_encoding = s.max_encoding_message_size;
    };
    fields-new = λ inner. refl;
    fields-apply = λ s. elim [
      | accept_compressed e ↦ refl
      | send_compressed e ↦ refl
      | max_decoding_message_size n ↦ refl
      | max_encoding_message_size n ↦ refl
    ];
  }

  abbrev pub set_unit :
      {T : Type 0} → UnitServiceServer tonic T → Setting tonic.Encoding → UnitServiceServer tonic T
  set_unit s (accept_compressed e) = UnitServer.accept_compressed tonic s e
  set_unit s (send_compressed e) = UnitServer.send_compressed tonic s e
  set_unit s (max_decoding_message_size n) = UnitServer.max_decoding_message_size tonic s n
  set_unit s (max_encoding_message_size n) = UnitServer.max_encoding_message_size tonic s n

  unfoldable pub unit_builder : {T : Type 0} → Builder tonic T (UnitServiceServer tonic T)
  unfolding UnitServer.new UnitServer.from_arc UnitServer.accept_compressed
      UnitServer.send_compressed UnitServer.max_decoding_message_size
      UnitServer.max_encoding_message_size
  unit_builder = record {
    new = UnitServer.new tonic;
    apply = set_unit;
    fields = λ s. record {
      inner = s.inner;
      accepts = s.accept_compression_encodings;
      sends = s.send_compression_encodings;
      max_decoding = s.max_decoding_message_size;
      max_encoding = s.max_encoding_message_size;
    };
    fields-new = λ inner. refl;
    fields-apply = λ s. elim [
      | accept_compressed e ↦ refl
      | send_compressed e ↦ refl
      | max_decoding_message_size n ↦ refl
      | max_encoding_message_size n ↦ refl
    ];
  }

  abbrev pub set_group :
      {T : Type 0}
      → GroupServiceServer tonic T
      → Setting tonic.Encoding
      → GroupServiceServer tonic T
  set_group s (accept_compressed e) = GroupServer.accept_compressed tonic s e
  set_group s (send_compressed e) = GroupServer.send_compressed tonic s e
  set_group s (max_decoding_message_size n) = GroupServer.max_decoding_message_size tonic s n
  set_group s (max_encoding_message_size n) = GroupServer.max_encoding_message_size tonic s n

  unfoldable pub group_builder : {T : Type 0} → Builder tonic T (GroupServiceServer tonic T)
  unfolding GroupServer.new GroupServer.from_arc GroupServer.accept_compressed
      GroupServer.send_compressed GroupServer.max_decoding_message_size
      GroupServer.max_encoding_message_size
  group_builder = record {
    new = GroupServer.new tonic;
    apply = set_group;
    fields = λ s. record {
      inner = s.inner;
      accepts = s.accept_compression_encodings;
      sends = s.send_compression_encodings;
      max_decoding = s.max_decoding_message_size;
      max_encoding = s.max_encoding_message_size;
    };
    fields-new = λ inner. refl;
    fields-apply = λ s. elim [
      | accept_compressed e ↦ refl
      | send_compressed e ↦ refl
      | max_decoding_message_size n ↦ refl
      | max_encoding_message_size n ↦ refl
    ];
  }

  abbrev pub set_location :
      {T : Type 0}
      → LocationServiceServer tonic T
      → Setting tonic.Encoding
      → LocationServiceServer tonic T
  set_location s (accept_compressed e) = LocationServer.accept_compressed tonic s e
  set_location s (send_compressed e) = LocationServer.send_compressed tonic s e
  set_location s (max_decoding_message_size n) = LocationServer.max_decoding_message_size tonic s n
  set_location s (max_encoding_message_size n) = LocationServer.max_encoding_message_size tonic s n

  unfoldable pub location_builder : {T : Type 0} → Builder tonic T (LocationServiceServer tonic T)
  unfolding LocationServer.new LocationServer.from_arc LocationServer.accept_compressed
      LocationServer.send_compressed LocationServer.max_decoding_message_size
      LocationServer.max_encoding_message_size
  location_builder = record {
    new = LocationServer.new tonic;
    apply = set_location;
    fields = λ s. record {
      inner = s.inner;
      accepts = s.accept_compression_encodings;
      sends = s.send_compression_encodings;
      max_decoding = s.max_decoding_message_size;
      max_encoding = s.max_encoding_message_size;
    };
    fields-new = λ inner. refl;
    fields-apply = λ s. elim [
      | accept_compressed e ↦ refl
      | send_compressed e ↦ refl
      | max_decoding_message_size n ↦ refl
      | max_encoding_message_size n ↦ refl
    ];
  }

  abbrev pub set_simulation :
      {T : Type 0}
      → SimulationServiceServer tonic T
      → Setting tonic.Encoding
      → SimulationServiceServer tonic T
  set_simulation s (accept_compressed e) = SimulationServer.accept_compressed tonic s e
  set_simulation s (send_compressed e) = SimulationServer.send_compressed tonic s e
  set_simulation s (max_decoding_message_size n) =
      SimulationServer.max_decoding_message_size tonic s n
  set_simulation s (max_encoding_message_size n) =
      SimulationServer.max_encoding_message_size tonic s n

  unfoldable pub simulation_builder :
      {T : Type 0} → Builder tonic T (SimulationServiceServer tonic T)
  unfolding SimulationServer.new SimulationServer.from_arc SimulationServer.accept_compressed
      SimulationServer.send_compressed SimulationServer.max_decoding_message_size
      SimulationServer.max_encoding_message_size
  simulation_builder = record {
    new = SimulationServer.new tonic;
    apply = set_simulation;
    fields = λ s. record {
      inner = s.inner;
      accepts = s.accept_compression_encodings;
      sends = s.send_compression_encodings;
      max_decoding = s.max_decoding_message_size;
      max_encoding = s.max_encoding_message_size;
    };
    fields-new = λ inner. refl;
    fields-apply = λ s. elim [
      | accept_compressed e ↦ refl
      | send_compressed e ↦ refl
      | max_decoding_message_size n ↦ refl
      | max_encoding_message_size n ↦ refl
    ];
  }
