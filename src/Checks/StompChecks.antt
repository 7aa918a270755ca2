-- ===== src/Checks/StompChecks.antt =====
-- The STOMP client at concrete inputs.
use distributed_storage_with.Base.{
  ◌≡◌, refl, List, [], ◌∷◌, ◌++◌, none, some, Text, codes, lookup, insert, contains_key, map, arith,
  text_Eq,
}
use distributed_storage_with.Mqtt.Faults.{ok}
use distributed_storage_with.Mqtt.Client.{open_state}
use distributed_storage_with.Stomp.Marshalled.{received}
use distributed_storage_with.Stomp.RoundTrip.{wire, unmarshall-wire}
use distributed_storage_with.Stomp.Frame.{Frame, marshall, new_frame, to_string}
use distributed_storage_with.Radix.{natural_to_string}
use distributed_storage_with.Stomp.Client.{
  StompClient, new_stomp_client, max_frame_size, emit_all, transmit,
}
use distributed_storage_with.Stomp.Pieces.{Cut, transmit-Cut}
use distributed_storage_with.Stomp.Parse.{
  unmarshall, unmarshall_all, unmarshall_single, split_frames, find_divider, split_at, headers_of,
  header_of, split_header, trim, trim_left, parse_int, digits_from, until_null,
}

marshall_begin :
    marshall (codes "BEGIN") (some ((codes "transaction", codes "t") ∷ [])) none
    ≡ codes "BEGIN\ntransaction:t\n\n" ++ 0 ∷ []
unfolding marshall new_frame to_string
marshall_begin = refl

abbrev open_client : StompClient
open_client = new_stomp_client open_state

open_client_socket : open_client.socket ≡ open_state
unfolding new_stomp_client
open_client_socket = refl

transmit-Cut_example :
    (texts : List Text) × (transmit (codes "DISCONNECT") none none open_client
      ≡ (ok tt, emit_all texts open_client))
    × Cut max_frame_size (marshall (codes "DISCONNECT") none none) texts
transmit-Cut_example = transmit-Cut (codes "DISCONNECT") none none open_client open_client_socket

-- Two frames, the first with spaces about a value, the second with a length that leaves out its last
-- character
unmarshall_two :
    unmarshall (
      codes "RECEIPT\nreceipt-id: 7 \n\n"
      ++ (0 ∷ codes "\n\nMESSAGE\ncontent-length:2\n\nabc" ++ 0 ∷ []))
    ≡ record {
      command = codes "RECEIPT";
      headers = (codes "receipt-id", codes "7") ∷ [];
      body = [];
    }
      ∷ record {
        command = codes "MESSAGE";
        headers = (codes "content-length", codes "2") ∷ [];
        body = codes "ab";
      }
      ∷ []
unfolding unmarshall unmarshall_all unmarshall_single split_frames find_divider split_at headers_of
    header_of split_header trim trim_left parse_int digits_from until_null lookup insert
unmarshall_two = refl

-- A frame with a body, and one without.
abbrev sent_frames : List Frame
sent_frames =
    record {
      command = codes "SEND";
      headers = (codes "destination", codes "/queue/a") ∷ (codes "id", codes "1") ∷ [];
      body = codes "x:y";
    }
    ∷ record { command = codes "DISCONNECT"; headers = []; body = [] }
    ∷ []

unmarshall-wire_example : unmarshall (wire sent_frames) ≡ map received sent_frames
unfolding trim trim_left contains_key to_string natural_to_string
unmarshall-wire_example = unmarshall-wire sent_frames (
  record {
    command_line = omega arith;
    one_line = omega arith;
    readable = ((omega arith, refl, refl), ((omega arith, refl, refl), tt));
    distinct = (refl, (refl, tt));
    no_length = refl;
    no_null = omega arith;
  },
  (
    record {
      command_line = omega arith;
      one_line = tt;
      readable = tt;
      distinct = tt;
      no_length = refl;
      no_null = omega arith;
    },
    tt,
  ),
)
