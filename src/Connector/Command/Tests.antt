-- ===== src/Connector/Command/Tests.antt =====
-- Examples for the command of the hook.
use promptlens_v.Prelude.{Chars, codes, ◌≡◌, some, [], ◌∷◌}
use promptlens_v.Connector.Command.{Platform, capture, capture_command}
use promptlens_v.Connector.Command.Shell.{shell_words, shell_words-capture_command}

abbrev node : Chars
node = codes "/usr/bin/node"

abbrev cli : Chars
cli = codes "/home/o'neil/my app/cli.js"

shell_words-capture_command_example :
    shell_words (capture_command Platform.posix node cli) ≡ some (node ∷ cli ∷ capture ∷ [])
shell_words-capture_command_example = shell_words-capture_command node cli
