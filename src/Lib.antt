-- ===== src/Lib.antt =====
-- Verification library of components-mcu, a set of C++ components for microcontrollers (a command
-- line interface, key-value storage, output builders, publish and subscribe, timers, an STM32
-- bootloader client and others). Paths below are from the repository's root.
--
-- Prelude: shared names, Boolean tests, C arrays as lists over the native numbers, machine words.
--
-- Cli: the component cli/.
--   Cli.Line: cli/cmdline_get.cc (`cli_get_commandline`) and cli/cmdline_set.cc (`cliBuf_enlarge`,
--   `get_commandline`). `CliBuf` is `struct cli_buf`; `accept` is one round of the loop over
--   characters, `read` the loop, `fetch` the loop of `get_commandline`. Input is a list of
--   characters that ends where `getc_fun` returns -1. `realloc` is a parameter with the laws
--   `ReallocLaws`. The fuel of `fetch` counts calls of the reader: each but the first reads a
--   character or ends, so two more than the characters are enough. Cli.Line.Editor is the abstract
--   line editor that the reader implements.
--   Cli.Parse: cli/cmdline_parse.cc (`cli_parseCommandline`). `Cursor` is the pointer `cl` into the line,
--   `round` the body of the loop, `settle` and `register` what follows it, `parse` the loop. Pointers
--   are offsets into the line; `atoi` is a parameter. The fuel is one more than the characters of the
--   line, since each round but the last reads one. Cli.Parse.Words has the printed command lines that
--   the parser is compared with.
--   Cli.Process: cli/cmdline_process.cc (`cli_process_cmdline`, `cli_processParameters`) and `asc2bool` of
--   cli/cli.cc. What is done with the output is a list of events; the hook of the password and the
--   handlers are parameters. Commands in JSON are left out.
--
-- Uout: the component uout/.
--   Uout.Callbacks: uout/callbacks.cc with uout/include/uout/uo_callbacks.h. The two static arrays are
--   one list of slots; publishing yields the list of the calls made. The conversion `%d` of `snprintf`
--   is a parameter. Locking and changes by other tasks or by callbacks during a publication are left
--   out.
--   Uout.Json: uout/status_json.cc with the class of uout/include/uout/uout_builder_json.hh.
--   `Builder` is the state of `UoutBuilderJson`; `add` and `close` are the common form of the
--   functions that add text and that close an object or an array. `realloc` and the writer are
--   parameters (`Target`, with what memcpy leaves where its places overlap), and so are the digits of
--   a number. Uout.Json.Steps has sequences of calls and the text that they mean, Uout.Json.Trees the
--   calls that build a value, Uout.Json.Texts JSON values as the standard writes them, and
--   Uout.Json.Nesting the conditions of `precond` on `m_obj_ct`, which are not part of the functions.
--   Uout.Json.Reading has what others put into the buffer (`read_json_from_function` and its two
--   forms for arrays, whose loop of two passes is `read_pass` and `pass_again`, the functions that hand
--   out the buffer, and the numbers of `snprintf`), and Uout.Json.Elements is about it. Uout.Json.Writing
--   has `write_json` and `writeln_json`, and Uout.Json.Streaming puts building and writing together. The
--   numbers of `ftoa`, and `cat_to_buf`, are left out.
--   Uout.Writer: uout/so_target_desc.cc, `priv_write` of the console and of files and
--   `UoutRawWriter::writeln`. `os_write` is write(2), a parameter; `Fd` collects the bytes it took.
--   The bound of `assert` is a parameter too, and a text that reaches it aborts (`Aborts`).
--   Uout.Chunks: `UoutWriterFunction` of uout/include/uout/uout_writer.hh, whose callback is a parameter.
--   Uout.Plain: uout/cli_out.cc, `UoutBuilderPlaintext` and the messages; Uout.Plain.Lines is about the lines of
--   a reply. What `snprintf` makes of a number is a parameter.
--
-- Kvs: the key-value storage on a host, kvs/host/kvs_posix.cc with kvs/host/kvs_templates.hh.
--   Kvs.Layout: `struct line_info` and its bytes. Kvs.Store: the functions over a file, which is its
--   bytes; `Aborts` (Prelude) is an operation that an assertion may abort or that may run out of fuel. `find_from` is the loop of
--   `kvs_find_next` and `find_int_from` that of `find_key_int_w`; every entry has 32 bytes, so the length
--   of the file is enough fuel. Kvs.Nodes and Kvs.Search see a file as a list of entries, Kvs.Keys which
--   entries a key matches, Kvs.Place and Kvs.Placing where an integer is written, Kvs.Lookup what is read.
--   Kvs.Entry, Kvs.Integers, Kvs.History and Kvs.Erase are about setting integers and erasing. Kvs.Blobs models
--   strings and blobs, Kvs.BlobPlacing, Kvs.BlobSearch, Kvs.BlobValues, Kvs.BlobWriting and Kvs.Strings are about them. Kvs.Handles has the
--   handles, Kvs.Foreach `kvs_foreach`; open(2) is a parameter. Failing calls of
--   lseek(2), read(2) and write(2), and the abort of test builds on a bad cookie, are left out.
--
-- Jsmn: jsmn/include/jsmn/jsmn_iterate.hh. An iterator is an index; the parser jsmn, `atol` and `atof`
-- are parameters. The fuel of `skip_value` is the depth of its recursion, for which the number of tokens
-- is enough. Jsmn.Skipping has JSON values and their tokens, Jsmn.Getters the getters, Jsmn.Values
-- what keys and values are in the text.
--
-- Stm32: stm32/stm32_bootloader.cc and `stm32Ota_firmwareUpdate` of stm32/stm32_flash.cc. The state is the history
-- of the calls of the serial line; what the device answers is any function of the history.
-- Stm32.Scripts and Stm32.Upload compare the client with scripts of messages and acknowledgements,
-- Stm32.Frames has a receiver that checks the messages, Stm32.Replies what follows from the replies. The fuel of
-- `write_chunks` is one more than the bytes of the file, since each round but the last takes one.
--
-- Timing: utils_time/periodic.c and utils_time/include/utils_time/time_out_secs.hh; what the clock returns
-- in a call is an argument.
--
-- Net: net/esp32/tcp_cli_server_task.cc, class `TcpCliServer`. `Server` is its state, with the subscribers
-- of Uout.Callbacks, what the sockets will yield and what they took; the sockets (`Sockets`, the results of
-- lwip_accept and lwip_select) and `realloc` are parameters. Net.TcpCli has the clients and the output of
-- published messages, Net.TcpCli.Input `tcps_getc` and `handle_input` over the reader of Cli.Line,
-- Net.TcpCli.Select the listening sockets and `wait_for_fd`. Net.TcpCli.Invariant, Foreach, Receiving and
-- Broadcast are about messages to the clients, Lines, Commands and Shared about the commands that they send,
-- Serving and Rounds about a round of the server. The fuel of `handle` counts calls of the reader: each
-- but the first reads from the socket or ends, so two more than what the socket holds are enough.
-- The loop of `foreach_fd` runs for `nfds` rounds at most. The command lines are recorded and not run;
-- locks, CONFIG_APP_USE_CLI_TASK_EXP and `tcpCli_setup_task` are left out.
--
-- Config: the component config_kvs/. Config.Items is config_kvs/config_kvs.cc over the storage of Kvs,
-- Config.Saving about it; what open(2), strtoul and atoi return is given. Config.Settings is the table of
-- settings of config_kvs/include/config_kvs/settings_template.hh. Numbers of floating point are left out.
--
-- Weather: weather/weather_irrigation.cc. Weather.Irrigation has `get_simple_irrigation_factor` over any
-- data of the hours and any numbers of floating point; the number of hours is enough fuel, since each
-- round counts it down.
--
-- Txtio: txtio/inout.cc with itoa and ltoa of utils_misc/esp32/itoa.c. Txtio.Inout has the functions over the
-- output or the input, which `io_putc_fun` and `io_getc_fun` stand for, and sprintf as a parameter; Txtio.Hex is
-- about hexadecimal numbers, Txtio.Writing about `io_write` and `io_getline`. Decimal numbers, numbers of
-- floating point and the devices are left out.
--
-- Misc: the component utils_misc/.
--   Misc.Bcd: utils_misc/bcd.c.
--
-- Not modelled: code that only drives ESP-IDF, sockets, files or tasks, and copies of other
-- libraries (utils_misc/base64.c of mbed TLS, jsmn/include/jsmn/jsmn.h); the choice between text and
-- JSON in uout/so_out.cc, the topics of net_mqtt_client/ and the storage of weather data.
pub mod Prelude
pub mod Cli
pub mod Uout
pub mod Kvs
pub mod Jsmn
pub mod Stm32
pub mod Timing
pub mod Misc
pub mod Net
pub mod Config
pub mod Weather
pub mod Txtio
