-- ===== src/Lib.antt =====
-- A model of the command line tool of the rainbow bridge, which moves tokens between Ethereum and
-- NEAR, with the theorems that make its parts correct.
--
-- The parts and how they interact. Two relays and a watchdog run next to the contracts: the relay
-- of near2eth/near2eth-block-relay hands light client blocks of NEAR to the bridge contract on
-- Ethereum, that of eth2near/eth2near-block-relay hands headers of Ethereum to the client contract
-- on NEAR, and near2eth/watchdog challenges a block of the bridge contract that has a wrong
-- signature. A transfer of testing/transfer-eth-erc20/from-near.js withdraws tokens on NEAR, waits
-- until the bridge contract knows a block that holds the receipt, and unlocks the tokens with a
-- proof; one of testing/transfer-eth-erc20/to-near.js locks tokens on Ethereum, waits until the
-- client on NEAR holds the block as safe, and deposits them there with the proof of the lock.
-- cli/index.js declares the options and runs these and the commands that deploy contracts. All of
-- them stand on utils: robust.js sends transactions and repeats calls, helpers.js creates and
-- checks accounts, borsh.js and borshify-proof.js encode what the contracts read, and
-- config/index.js finds the parameters of a command.
--
-- - Base: JavaScript as a model. Base.Io is an asynchronous function as a function of the trace of
--   what was done so far, latest first, to an outcome and a longer trace: a value, an exception,
--   an exit code, an await that never settles, or no fuel. Nodes, contracts and packages are
--   records of answers, each a function of the trace, so that a theorem about all records is one
--   about all behaviours. Base.Io.Within runs a part with events of its own within a larger
--   program.
-- - Retry: retry and backoff of utils/robust.js.
-- - Borsh: serialize, deserialize and BinaryReader of utils/borsh.js. Fuel is the depth of nested
--   types.
-- - Borshify: borshify and borshifyInitialValidators of utils/borsh.js, and borshifyOutcomeProof
--   of utils/borshify-proof.js. Borshify.NearDecoder is the reading of block producers in
--   contracts/eth/nearbridge/contracts.
-- - Config: utils/config/index.js.
-- - Near: signAndSendTransaction of utils/robust.js. Its loops have fixed bounds, so that it needs
--   no fuel.
-- - Near.Async: signAndSendTransactionAsync and txnStatus of utils/borsh.js.
-- - Contract: the methods of BorshContract of utils/borsh.js, on Borsh, Near and Retry.
-- - RobustWeb3: the class RobustWeb3 of utils/robust.js. The loop of callContract has fuel; a
--   timeout doubles the gas price, so that forty-five rounds reach 1e13 from any price but zero.
-- - Accounts: utils/helpers.js.
-- - Watchdog: run of near2eth/watchdog/index.js. Its loop for the challenge has the same
--   forty-five rounds, and the loop over the signatures is bounded by their number. The endless
--   loop is modelled up to its n-th turn, for every n.
-- - Near2Eth: runInternal of near2eth/near2eth-block-relay/index.js, up to its n-th turn, and
--   initialize there. The loop that waits for a final block has fuel, since nothing in the program
--   bounds it.
-- - Eth2Near: the loop and submitBlock of eth2near/eth2near-block-relay/index.js. The search for a
--   block that the client knows has fuel, since an exception there only starts another round. The
--   blocks of a turn are read, and the statuses of their transactions awaited, one after the
--   other, where the program starts them together.
-- - FromNear: execute and the stages of testing/transfer-eth-erc20/from-near.js. The two loops
--   that wait for a chain have fuel, since nothing in the program bounds them; where it ends, so
--   does the trace. The log file holds what was written last.
-- - ToNear: execute and the stages of testing/transfer-eth-erc20/to-near.js. The loop that waits
--   for the client has fuel, since nothing in the program bounds it. ToNear.Protocol is what a
--   transfer promises without its data.
-- - Extractor: eth2near/eth2near-block-relay/eth-proof-extractor.js. The receipts of a block are
--   read one after the other, where the program starts the requests together.
-- - TokenFactory: testing/transfer-eth-erc20/deploy-token.js and cli/init/near-token-factory.js.
-- - Deployment: cli/init/eth-contracts.js.
-- - EthOnNear: maybeInitialize of eth2near/eth2near-block-relay/eth-on-near-client.js and
--   eth-on-near-prover.js, and cli/init/near-contracts.js, which runs both.
-- - EthOnNear.Schemas: the schemas and methods of these two files, and hexToBuffer and readerToHex
--   of utils/borsh.js. EthOnNear.Headers: the argument of add_block_header as a value of the
--   codec; EthOnNear.Submitted: that argument as submitBlock makes it.
-- - Status: cli/commands/status.js.
-- - Cli: cli/index.js. Cli.Options, Cli.Commands, Cli.Deployments and Cli.Testing hold its calls
--   of declareOption and addOptions, Cli.Args and Cli.Handlers the handlers of the commands, and
--   Cli.Setup what is registered when the tool starts.
-- - Examples: concrete nodes and inputs, and the theorems at them.
--
-- Numbers are natural numbers of any size where the program has bn.js numbers, block heights and
-- times; a delay that may be negative is an integer. Delays of backoff are JavaScript numbers of a
-- type that is a parameter.
--
-- Not modelled: console output; the building of web3 and NEAR objects from files and keys;
-- initialize of the watchdog; the closing of connections but for the test whether there is one to
-- close in eth-proof-extractor.js; the parsing of arguments by commander; the commands of cli that
-- start and stop processes, and dump blocks to files; the other contracts and operations of the
-- contracts, in Solidity and Rust.
pub mod Accounts
pub mod Base
pub mod Borsh
pub mod Borshify
pub mod Cli
pub mod Config
pub mod Contract
pub mod Deployment
pub mod Eth2Near
pub mod Examples
pub mod EthOnNear
pub mod Extractor
pub mod FromNear
pub mod Near
pub mod Retry
pub mod RobustWeb3
pub mod Status
pub mod ToNear
pub mod TokenFactory
pub mod Watchdog
pub mod Near2Eth
