-- ===== src/History/Examples.antt =====
-- Tests of the message history.
use lan_chat.Base.{
  ℕ, ◌+◌, ◌≤◌, ◌≡◌, refl, true, false, none, some, List, [], ◌∷◌, ◌++◌, arith, length,
}
use lan_chat.History.Types.{Attachment, Message}
use lan_chat.History.Store.{Store, Env, history_limit, load_history}
use lan_chat.History.Page.{page_of}
use lan_chat.History.Restart.{
  Op, append, gone, edit, apply_all, empty_store, AllGood, IsGood, load_history-apply_all,
}
use lan_chat.History.Paging.{page_of-append-page_of}
use lan_chat.History.Sample.{sample, sample-IsFaithful}

abbrev nonce : List ℕ
nonce = 1 ∷ 2 ∷ 3 ∷ 4 ∷ 5 ∷ 6 ∷ 7 ∷ 8 ∷ 9 ∷ 10 ∷ 11 ∷ 12 ∷ []

abbrev key : List ℕ
key = 7 ∷ 7 ∷ []

abbrev env : Env
env = record { crypto = true; key = key; nonce = nonce; fresh_mid = "f00d"; writes = true }

abbrev photo : Attachment
photo = record { name = "a.png"; size = 10; gone = false; dismissed = false; accepted = false }

abbrev hello : Message
hello = record {
  mid = none;
  from = some "ann";
  to = some "bob";
  room = none;
  text = "hello";
  edited = false;
  attachment = none;
}

abbrev picture : Message
picture = record hello { mid = some "m1"; from = some "eve"; attachment = some photo }

abbrev ops : List (Env × Op)
ops = (env, append hello) ∷ (env, append picture) ∷ (env, gone "m1") ∷ (env, edit "f00d" "hi") ∷ []

abbrev two : Store
two = record empty_store { history = record hello { mid = some "f00d" } ∷ picture ∷ [] }

good : IsGood sample true key env
good = record { crypto_same = refl; key_same = refl; nonce_length = refl; writes = refl }

good_ops : AllGood sample true key ops
good_ops = (good, (good, (good, (good, tt))))

abbrev thread : List ℕ
thread = 1 ∷ 2 ∷ 3 ∷ 4 ∷ 5 ∷ []

load_history-apply_all_example :
    ((load_history sample env (apply_all sample ops empty_store)).history
      ≡ (apply_all sample ops empty_store).history)
    × (length (load_history sample env (apply_all sample ops empty_store)).history ≤ history_limit)
load_history-apply_all_example =
    load_history-apply_all sample sample-IsFaithful true key ops env
      (apply_all sample ops empty_store) good_ops good refl

page_of-append-page_of_example :
    (page_of thread (1 + 2) 1 ++ page_of thread 1 2 ≡ page_of thread 1 (2 + 1))
    × (length (page_of thread 1 2) ≡ 2)
page_of-append-page_of_example = page_of-append-page_of thread 1 2 1 (omega arith)
