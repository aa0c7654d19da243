-- ===== src/Stores/Files.antt =====
-- The part of a file system that the key value stores call, as an interface: making a directory,
-- opening a file for writing, writing to it, reading it. A path names a file by `resolve`, so that
-- two paths may name one file. A call fails with the message of its exception; what is asked of a
-- call that fails is nothing.
use labfunctions.Prelude.{◌≡◌, [], Option, none, some, ◌++◌, if◌then◌else◌}
use labfunctions.Text.{Text, teq}
use labfunctions.Effects.{Result, ok, err}
use labfunctions.Stores.Chunks.{Bytes}

pub data Done : Type 0 where
  done : Done

abbrev pub read_result : Text → Option Bytes → Result Text Bytes
read_result e none = err e
read_result e (some b) = ok b

pub record FileSystem : Type 1 where
  pub State : Type 0
  pub resolve : Text → Text
  pub contents : State → Text → Option Bytes
  pub no_file : Text → Text
  pub mkdir : State → Text → Result Text Done × State
  pub open_write : State → Text → Result Text Done × State
  pub write : State → Text → Bytes → Result Text Done × State
  pub read : State → Text → Result Text Bytes
  pub contents-mkdir :
      (s : State) (p f : Text) → (mkdir s p).0 ≡ ok done → contents (mkdir s p).1 f ≡ contents s f
  -- The file is empty after it was opened for writing.
  pub contents-open_write :
      (s : State) (p f : Text)
      → (open_write s p).0 ≡ ok done
      → contents (open_write s p).1 f ≡ (if teq (resolve p) f then some [] else contents s f)
  pub contents-write :
      (s : State) (p f : Text) (a b : Bytes)
      → contents s (resolve p) ≡ some a
      → (write s p b).0 ≡ ok done
      → contents (write s p b).1 f ≡ (if teq (resolve p) f then some (a ++ b) else contents s f)
  pub read_lem :
      (s : State) (p : Text) → read s p ≡ read_result (no_file p) (contents s (resolve p))
