-- ===== src/Tests/Client.antt =====
-- src/client.cpp on concrete requests to the standard objects.
use ferriot.Prelude.{
  present, ℕ, ◌≡◌, refl, arith, true, not, ◌&&◌, Option, none, some, [], ◌∷◌, codes,
}
use ferriot.Prelude.Int.{pos}
use ferriot.Prelude.Table.{Table, find, keys}
use ferriot.Objects.Instances.{list_instances}
use ferriot.Types.Path.RoundTrip.{IsPath}
use ferriot.Client.Links.{map_list, instance_paths, build_registration_payload}
use ferriot.Client.Links.RoundTrip.{All, read_links, read_links-build_registration_payload}
use ferriot.Result.{not_found}
use ferriot.Types.{ObjectPath, instance_path, resource_path}
use ferriot.Types.Path.{
  parse, parsed, parse_loop, split_segment, set_component, segment_value, ends_with_slash,
}
use ferriot.Types.Decimal.{from_chars}
use ferriot.Resource.{integer, get_resource_type}
use ferriot.Tlv.Serialize.{serialize, serialize_int}
use ferriot.Tlv.Encoder.{encode_resource, encode_record, type_byte, id_field, length_field}
use ferriot.Tlv.Values.{stored}
use ferriot.Objects.Server
use ferriot.Objects.Firmware
use ferriot.Objects.Connectivity
use ferriot.Objects.Device
use ferriot.Objects.Device.{default_config}
use ferriot.Object.{Object}
use ferriot.Object.Standard.{Standard, server_object, device_object, standard_objects}
use ferriot.Transport.{CoapRequest, get, tlv_lwm2m, content, changed, respond}
use ferriot.Client.Requests.{
  levels, target, answer, process_write, process_read, handle_incoming_request,
}
use ferriot.Client.Requests.Codes.{
  is_resource_instance, reaches_levels, handle_incoming_request_code, process_write-refused,
}
use ferriot.Client.Requests.RoundTrip.{process_write-encode_resource}
use ferriot.Client.Requests.WriteBack.{process_write-process_read}
use ferriot.Tests.Codec.{widen_zero, one_record, decode-one}

abbrev pub standard : Standard
standard = record {
  security = record { instances = []; next_instance_id = 0 };
  server = record {
    table = record { instances = (0, Server.default_instance) ∷ []; next_instance_id = 1 };
    has_callback = true;
  };
  device = Device.device_object default_config;
  device_resources = [];
  connectivity = Connectivity.default_config;
  firmware_update = Firmware.created;
}

abbrev objects : ℕ → Option (Object Standard)
objects = standard_objects (pos 0)

-- GET /5/0/8/1
abbrev request : CoapRequest
request = record {
  method = get;
  uri_path = codes "/5/0/8/1";
  options = [];
  payload = [];
  content_format = tlv_lwm2m;
}

abbrev requested : ObjectPath
requested = record {
  object_id = 5;
  instance_id = some 0;
  resource_id = some 8;
  resource_instance_id = some 1;
}

handle_incoming_request_code_example :
    present (handle_incoming_request widen_zero objects standard request).1.code
    ≡ not (
        is_resource_instance (target requested)
        && reaches_levels objects request.method requested request.payload)
unfolding parse parsed parse_loop split_segment segment_value ends_with_slash from_chars
    set_component
handle_incoming_request_code_example =
    handle_incoming_request_code widen_zero objects standard request {path = requested} refl

process_write-encode_resource_example :
    process_write widen_zero objects standard (resource_path 1 0 1) (193 ∷ 1 ∷ 60 ∷ [])
    ≡ answer changed (server_object.write_resource standard 0 1 none (stored (integer (pos 60))))
unfolding standard_objects levels Server.get_resource_type Server.field_type Server.field_of
    serialize serialize_int encode_resource encode_record type_byte id_field length_field
    get_resource_type
process_write-encode_resource_example =
    process_write-encode_resource widen_zero objects standard (resource_path 1 0 1)
      {object = server_object} {iid = 0} {rid = 1} 1 (integer (pos 60))
      {payload = 193 ∷ 1 ∷ 60 ∷ []} refl refl refl (omega arith) (omega arith, omega arith, tt) refl

-- GET and PUT /1/0/1.
process_write-process_read_example :
    let response = process_read widen_zero objects standard (resource_path 1 0 1) in
    (response.code ≡ some content)
    × (process_write widen_zero objects standard (resource_path 1 0 1) response.payload
        ≡ answer changed
            (server_object.write_resource standard 0 1 none (stored (integer (pos 86400)))))
unfolding standard_objects levels Server.read_resource Server.read_in Server.read_field
    Server.field_of find serialize serialize_int
process_write-process_read_example =
    process_write-process_read widen_zero (pos 0) standard (resource_path 1 0 1)
      {object = server_object} {iid = 0} {rid = 1} {v = integer (pos 86400)} refl
      (λ e. absurd (ground arith)) refl refl (omega arith) (omega arith, omega arith, tt)

-- The Device object has no instance 7.
process_write-refused_example :
    process_write widen_zero objects standard (instance_path 3 7) one_record
    ≡ (standard, respond changed)
unfolding standard_objects levels Device.write_resource
process_write-refused_example =
    process_write-refused widen_zero (device_object (pos 0)) standard 7 objects (instance_path 3 7)
      one_record refl refl decode-one
      (λ rid v. (record { code = not_found; message = "Instance not found" }, refl))

abbrev registered_objects : Table (Object Standard)
registered_objects = (1, server_object) ∷ (3, device_object (pos 0)) ∷ []

registered_objects-IsPath : All IsPath (instance_paths registered_objects standard)
unfolding instance_paths list_instances keys
registered_objects-IsPath = ((omega arith, omega arith), ((omega arith, omega arith), tt))

read_links-build_registration_payload_example :
    read_links (build_registration_payload registered_objects standard)
    ≡ map_list some (instance_paths registered_objects standard)
read_links-build_registration_payload_example =
    read_links-build_registration_payload registered_objects standard registered_objects-IsPath
