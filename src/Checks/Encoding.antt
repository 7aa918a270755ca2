-- ===== src/Checks/Encoding.antt =====
-- A way to write messages as numbers and to read them back, which stands for Java serialization.
use mathlib.Core.Path.{ap}
use distributed_storage_with.Base.{ℕ, zero, suc, ◌≡◌, refl, List, [], ◌∷◌, Option, none, some, Text}
use distributed_storage_with.Ring.Metadata.{Metadata}
use distributed_storage_with.Messages.{StatusType, KvMessage, client, admin}

-- Reading a value off the front of a list.
abbrev pub Reader : Type 0 → Type 0
Reader A = List ℕ → Option (A × List ℕ)

pub record Codec (A : Type 0) : Type 0 where
  pub write : A → List ℕ → List ℕ
  pub read : Reader A
  pub read-write : (a : A) (rest : List ℕ) → read (write a rest) ≡ some (a, rest)

abbrev pub then_read : {A B : Type 0} → Option (A × List ℕ) → (A → List ℕ → Option B) → Option B
then_read none f = none
then_read (some (a, rest)) f = f a rest

abbrev write_text : Text → List ℕ → List ℕ
write_text [] rest = 0 ∷ rest
write_text (c ∷ s) rest = suc c ∷ write_text s rest

abbrev read_text : Reader Text
read_text [] = none
read_text (zero ∷ rest) = some ([], rest)
read_text (suc c ∷ rest) = then_read (read_text rest) λ s rest'. some (c ∷ s, rest')

pub read_text-write_text :
    (s : Text) (rest : List ℕ) → read_text (write_text s rest) ≡ some (s, rest)
read_text-write_text [] rest = refl
read_text-write_text (c ∷ s) rest = rw (read_text-write_text s rest)

abbrev pub text_codec : Codec Text
text_codec = record { write = write_text; read = read_text; read-write = read_text-write_text }

module _ {A : Type 0} (a : Codec A) where
  abbrev write_option : Option A → List ℕ → List ℕ
  write_option none rest = 0 ∷ rest
  write_option (some x) rest = 1 ∷ a.write x rest

  abbrev read_option : Reader (Option A)
  read_option [] = none
  read_option (zero ∷ rest) = some (none, rest)
  read_option (suc _ ∷ rest) = then_read (a.read rest) λ x rest'. some (some x, rest')

  pub read_option-write_option :
      (o : Option A) (rest : List ℕ) → read_option (write_option o rest) ≡ some (o, rest)
  read_option-write_option none rest = refl
  read_option-write_option (some x) rest = rw (a.read-write x rest)

  abbrev pub option_codec : Codec (Option A)
  option_codec = record {
    write = write_option;
    read = read_option;
    read-write = read_option-write_option;
  }

  abbrev count : List A → ℕ
  count [] = zero
  count (x ∷ xs) = suc (count xs)

  abbrev write_items : List A → List ℕ → List ℕ
  write_items [] rest = rest
  write_items (x ∷ xs) rest = a.write x (write_items xs rest)

  abbrev read_items : ℕ → Reader (List A)
  read_items zero rest = some ([], rest)
  read_items (suc n) rest =
      then_read (a.read rest)
        λ x rest'. then_read (read_items n rest') λ xs rest''. some (x ∷ xs, rest'')

  pub read_items-write_items :
      (xs : List A) (rest : List ℕ) → read_items (count xs) (write_items xs rest) ≡ some (xs, rest)
  read_items-write_items [] rest = refl
  read_items-write_items (x ∷ xs) rest =
      rw (a.read-write x (write_items xs rest)) (rw (read_items-write_items xs rest))

  abbrev read_list : Reader (List A)
  read_list [] = none
  read_list (n ∷ rest) = read_items n rest

  abbrev pub list_codec : Codec (List A)
  list_codec = record {
    write = λ xs rest. count xs ∷ write_items xs rest;
    read = read_list;
    read-write = read_items-write_items;
  }

  module _ {B : Type 0} (b : Codec B) where
    abbrev read_pair : Reader (A × B)
    read_pair rest =
        then_read {B = (A × B) × List ℕ} (a.read rest) λ x rest'.
          then_read {B = (A × B) × List ℕ} (b.read rest') λ y rest''. some ((x, y), rest'')

    pub read_pair-write_pair :
        (p : A × B) (rest : List ℕ) → read_pair (a.write p.0 (b.write p.1 rest)) ≡ some (p, rest)
    read_pair-write_pair p rest =
        rw (a.read-write p.0 (b.write p.1 rest)) (rw (b.read-write p.1 rest))

    abbrev pub pair_codec : Codec (A × B)
    pair_codec = record {
      write = λ p rest. a.write p.0 (b.write p.1 rest);
      read = read_pair;
      read-write = read_pair-write_pair;
    }

  abbrev pub image_codec : {B : Type 0} (f : A → B) (g : B → A) → ((y : B) → f (g y) ≡ y) → Codec B
  image_codec f g e = record {
    write = λ y rest. a.write (g y) rest;
    read = λ rest. then_read (a.read rest) λ x rest'. some (f x, rest');
    read-write = λ y rest. rw (a.read-write (g y) rest) (ap (λ y. some (y, rest)) (e y));
  }

abbrev read_number : Reader ℕ
read_number [] = none
read_number (n ∷ rest) = some (n, rest)

abbrev status_number : StatusType → ℕ
status_number StatusType.get = 0
status_number StatusType.get_error = 1
status_number StatusType.get_success = 2
status_number StatusType.put = 3
status_number StatusType.put_success = 4
status_number StatusType.put_update = 5
status_number StatusType.put_error = 6
status_number StatusType.delete_success = 7
status_number StatusType.delete_error = 8
status_number StatusType.server_stopped = 9
status_number StatusType.server_write_lock = 10
status_number StatusType.server_not_responsible = 11
status_number StatusType.init_server = 12
status_number StatusType.init_server_success = 13
status_number StatusType.init_server_failed = 14
status_number StatusType.start = 15
status_number StatusType.start_success = 16
status_number StatusType.stop = 17
status_number StatusType.stop_success = 18
status_number StatusType.shutdown = 19
status_number StatusType.shutdown_success = 20
status_number StatusType.lock = 21
status_number StatusType.lock_success = 22
status_number StatusType.unlock = 23
status_number StatusType.unlock_success = 24
status_number StatusType.move_data = 25
status_number StatusType.move_data_success = 26
status_number StatusType.move_data_failed = 27
status_number StatusType.update = 28
status_number StatusType.update_success = 29
status_number StatusType.update_failed = 30
status_number StatusType.flush = 31
status_number StatusType.flush_success = 32
status_number StatusType.flush_failed = 33

abbrev statuses : List StatusType
statuses =
    StatusType.get ∷ StatusType.get_error ∷ StatusType.get_success ∷ StatusType.put
    ∷ StatusType.put_success ∷ StatusType.put_update ∷ StatusType.put_error
    ∷ StatusType.delete_success ∷ StatusType.delete_error ∷ StatusType.server_stopped
    ∷ StatusType.server_write_lock ∷ StatusType.server_not_responsible ∷ StatusType.init_server
    ∷ StatusType.init_server_success ∷ StatusType.init_server_failed ∷ StatusType.start
    ∷ StatusType.start_success ∷ StatusType.stop ∷ StatusType.stop_success ∷ StatusType.shutdown
    ∷ StatusType.shutdown_success ∷ StatusType.lock ∷ StatusType.lock_success ∷ StatusType.unlock
    ∷ StatusType.unlock_success ∷ StatusType.move_data ∷ StatusType.move_data_success
    ∷ StatusType.move_data_failed ∷ StatusType.update ∷ StatusType.update_success
    ∷ StatusType.update_failed ∷ StatusType.flush ∷ StatusType.flush_success
    ∷ StatusType.flush_failed ∷ StatusType.get ∷ StatusType.get_error ∷ StatusType.get_success
    ∷ StatusType.put ∷ StatusType.put_success ∷ StatusType.put_update ∷ StatusType.put_error
    ∷ StatusType.delete_success ∷ StatusType.delete_error ∷ StatusType.server_stopped
    ∷ StatusType.server_write_lock ∷ StatusType.server_not_responsible ∷ StatusType.init_server
    ∷ StatusType.init_server_success ∷ StatusType.init_server_failed ∷ StatusType.start
    ∷ StatusType.start_success ∷ StatusType.stop ∷ StatusType.stop_success ∷ StatusType.shutdown
    ∷ StatusType.shutdown_success ∷ StatusType.lock ∷ StatusType.lock_success ∷ StatusType.unlock
    ∷ StatusType.unlock_success ∷ StatusType.move_data ∷ StatusType.move_data_success
    ∷ StatusType.move_data_failed ∷ StatusType.update ∷ StatusType.update_success
    ∷ StatusType.update_failed ∷ StatusType.flush ∷ StatusType.flush_success
    ∷ StatusType.flush_failed ∷ []

abbrev nth_status : List StatusType → ℕ → StatusType
nth_status [] n = StatusType.get
nth_status (s ∷ ss) zero = s
nth_status (s ∷ ss) (suc n) = nth_status ss n

abbrev status_of : ℕ → StatusType
status_of n = nth_status statuses n

pub status_of-status_number : (s : StatusType) → status_of (status_number s) ≡ s
status_of-status_number StatusType.get = refl
status_of-status_number StatusType.get_error = refl
status_of-status_number StatusType.get_success = refl
status_of-status_number StatusType.put = refl
status_of-status_number StatusType.put_success = refl
status_of-status_number StatusType.put_update = refl
status_of-status_number StatusType.put_error = refl
status_of-status_number StatusType.delete_success = refl
status_of-status_number StatusType.delete_error = refl
status_of-status_number StatusType.server_stopped = refl
status_of-status_number StatusType.server_write_lock = refl
status_of-status_number StatusType.server_not_responsible = refl
status_of-status_number StatusType.init_server = refl
status_of-status_number StatusType.init_server_success = refl
status_of-status_number StatusType.init_server_failed = refl
status_of-status_number StatusType.start = refl
status_of-status_number StatusType.start_success = refl
status_of-status_number StatusType.stop = refl
status_of-status_number StatusType.stop_success = refl
status_of-status_number StatusType.shutdown = refl
status_of-status_number StatusType.shutdown_success = refl
status_of-status_number StatusType.lock = refl
status_of-status_number StatusType.lock_success = refl
status_of-status_number StatusType.unlock = refl
status_of-status_number StatusType.unlock_success = refl
status_of-status_number StatusType.move_data = refl
status_of-status_number StatusType.move_data_success = refl
status_of-status_number StatusType.move_data_failed = refl
status_of-status_number StatusType.update = refl
status_of-status_number StatusType.update_success = refl
status_of-status_number StatusType.update_failed = refl
status_of-status_number StatusType.flush = refl
status_of-status_number StatusType.flush_success = refl
status_of-status_number StatusType.flush_failed = refl

abbrev number_codec : Codec ℕ
number_codec = record {
  write = λ n rest. n ∷ rest;
  read = read_number;
  read-write = λ n rest. refl;
}

abbrev status_codec : Codec StatusType
status_codec = image_codec number_codec status_of status_number status_of-status_number

abbrev metadata_codec : Codec Metadata
metadata_codec = list_codec (pair_codec text_codec text_codec)

abbrev Fields : Type 0
Fields = Option StatusType × (Option Text × (Option Text × Option Metadata))

abbrev fields_codec : Codec Fields
fields_codec =
    let text = option_codec text_codec in
    pair_codec (option_codec status_codec)
      (pair_codec text (pair_codec text (option_codec metadata_codec)))

-- The first number tells the two classes apart.
abbrev pub write_message : KvMessage → List ℕ
write_message (client m) = 0 ∷ fields_codec.write (m.status, (m.key, (m.value, m.metadata))) []
write_message (admin m) =
    1 ∷ fields_codec.write (m.status, (m.new_kv_server, (m.range, m.metadata))) []

abbrev client_of : Fields → KvMessage
client_of (status, (key, (value, metadata))) =
    client (record { status = status; key = key; value = value; metadata = metadata })

abbrev admin_of : Fields → KvMessage
admin_of (status, (new_kv_server, (range, metadata))) =
    admin (record {
      new_kv_server = new_kv_server;
      status = status;
      metadata = metadata;
      range = range;
    })

abbrev pub read_message : List ℕ → Option KvMessage
read_message [] = none
read_message (zero ∷ rest) = then_read (fields_codec.read rest) λ f _. some (client_of f)
read_message (suc _ ∷ rest) = then_read (fields_codec.read rest) λ f _. some (admin_of f)

pub read_message-write_message : (m : KvMessage) → read_message (write_message m) ≡ some m
read_message-write_message (client m) =
    rw (fields_codec.read-write (m.status, (m.key, (m.value, m.metadata))) [])
read_message-write_message (admin m) =
    rw (fields_codec.read-write (m.status, (m.new_kv_server, (m.range, m.metadata))) [])
