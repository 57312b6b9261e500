-- ===== src/Tests/Registering.antt =====
-- sdbus_names.h: two connections and one well-known name.
use schema_init.Prelude.{
  ◌≡◌, refl, false, none, some, List, [], ◌∷◌, map, arith, length, Bytes, codes, str_eq,
}
use schema_init.Names.Holders.{
  Holder, in_queue, request_holders, release_holders, first_owner, holds, holder_index,
  request_indexed,
}
use schema_init.Names.Registry.{
  Names, names_new, names_request, names_release, names_disconnect, names_owner, names_holds,
  names_alloc_unique, name_find, name_intern, put_holders, holders_of,
}
use schema_init.Names.Queue.{without, release-without}
use schema_init.Names.Replies.{Meaning, request-Meaning, request_from_queue}
use schema_init.Names.Ownership.{apply_all, IsRegistry, request_owners, release_owners}
use schema_init.Names.Disconnect.{disconnect_owners, disconnect_forgets}
use schema_init.Names.Invariant.{Call, hello, request, calls, call, calls_new-IsRegistry}

abbrev shell : Bytes
shell = codes "org.Shell"

abbrev session : List Call
session = hello 1 ∷ hello 2 ∷ request 1 shell 1 ∷ request 2 shell 0 ∷ []

abbrev bus : Names
bus = calls names_new session

bus_owner : names_owner bus shell ≡ some 1
unfolding calls call names_new names_request names_alloc_unique names_owner str_eq name_find
    name_intern put_holders holders_of request_holders holder_index request_indexed
bus_owner = refl

calls_new-IsRegistry_example : IsRegistry bus
calls_new-IsRegistry_example = calls_new-IsRegistry session

request_owners_example :
    let out = names_request bus 2 shell 2 in
    names_owner out.0 shell ≡ apply_all out.2 shell (names_owner bus shell)
request_owners_example = request_owners bus 2 shell 2 shell

release_owners_example :
    let out = names_release bus 1 shell in
    names_owner out.0 shell ≡ apply_all out.2 shell (names_owner bus shell)
release_owners_example = release_owners bus 1 shell shell (calls_new-IsRegistry session)

one_name : length bus.names ≡ 1
unfolding calls call names_new names_request names_alloc_unique str_eq name_find name_intern
    put_holders
one_name = refl

disconnect_owners_example :
    let out = names_disconnect bus 1 1 in
    names_owner out.0 shell ≡ apply_all out.1 shell (names_owner bus shell)
disconnect_owners_example =
    disconnect_owners bus 1 1 shell (calls_new-IsRegistry session) (omega (arith, one_name))

disconnect_forgets_example : names_holds (names_disconnect bus 1 1).0 1 shell ≡ false
disconnect_forgets_example =
    disconnect_forgets bus 1 1 shell (calls_new-IsRegistry session) (omega (arith, one_name))

abbrev waiting_two : List Holder
waiting_two = record { conn_id = 1; flags = 1 } ∷ record { conn_id = 2; flags = 0 } ∷ []

abbrev replacing : Holder
replacing = record { conn_id = 2; flags = 2 }

request-Meaning_example :
    Meaning
      (request_holders waiting_two replacing).reply
      waiting_two
      (request_holders waiting_two replacing).holders
      replacing
request-Meaning_example = request-Meaning waiting_two replacing

request_from_queue_example :
    ((request_holders waiting_two replacing).reply ≡ in_queue)
    × (map (λ (h : Holder). h.conn_id) (request_holders waiting_two replacing).holders
        ≡ map (λ (h : Holder). h.conn_id) waiting_two)
    × ((request_holders waiting_two replacing).change ≡ none)
unfolding holds first_owner
request_from_queue_example = request_from_queue waiting_two replacing refl (λ e. ground arith)

release-without_example : (release_holders waiting_two 1).holders ≡ without waiting_two 1
unfolding holds
release-without_example = release-without waiting_two 1 (refl, (refl, tt))
