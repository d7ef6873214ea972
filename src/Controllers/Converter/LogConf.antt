-- ===== src/Controllers/Converter/LogConf.antt =====
-- The logging profiles, `getLogConf` of controllers/flinkcluster_converter.go.
use flink_on_k8s_operator.Base.{String, List, [], ◌∷◌, concat}

log4j_console_properties : String
log4j_console_properties = concat (
    "log4j.rootLogger=INFO, console\n" ∷ "log4j.logger.akka=INFO\n"
    ∷ "log4j.logger.org.apache.kafka=INFO\n" ∷ "log4j.logger.org.apache.hadoop=INFO\n"
    ∷ "log4j.logger.org.apache.zookeeper=INFO\n"
    ∷ "log4j.appender.console=org.apache.log4j.ConsoleAppender\n"
    ∷ "log4j.appender.console.layout=org.apache.log4j.PatternLayout\n"
    ∷ "log4j.appender.console.layout.ConversionPattern=%d{yyyy-MM-dd HH:mm:ss,SSS} %-5p %-60c %x - %m%n\n"
    ∷ "log4j.logger.org.apache.flink.shaded.akka.org.jboss.netty.channel.DefaultChannelPipeline=ERROR, console"
    ∷ [])

logback_console_xml : String
logback_console_xml = concat (
    "<configuration>\n"
    ∷ "    <appender name=\"console\" class=\"ch.qos.logback.core.ConsoleAppender\">\n"
    ∷ "        <encoder>\n"
    ∷ "            <pattern>%d{yyyy-MM-dd HH:mm:ss.SSS} [%thread] %-5level %logger{60} %X{sourceThread} - %msg%n</pattern>\n"
    ∷ "        </encoder>\n" ∷ "    </appender>\n" ∷ "    <root level=\"INFO\">\n"
    ∷ "        <appender-ref ref=\"console\"/>\n" ∷ "    </root>\n"
    ∷ "    <logger name=\"akka\" level=\"INFO\">\n" ∷ "        <appender-ref ref=\"console\"/>\n"
    ∷ "    </logger>\n" ∷ "    <logger name=\"org.apache.kafka\" level=\"INFO\">\n"
    ∷ "        <appender-ref ref=\"console\"/>\n" ∷ "    </logger>\n"
    ∷ "    <logger name=\"org.apache.hadoop\" level=\"INFO\">\n"
    ∷ "        <appender-ref ref=\"console\"/>\n" ∷ "    </logger>\n"
    ∷ "    <logger name=\"org.apache.zookeeper\" level=\"INFO\">\n"
    ∷ "        <appender-ref ref=\"console\"/>\n" ∷ "    </logger>\n"
    ∷ "    <logger name=\"org.apache.flink.shaded.akka.org.jboss.netty.channel.DefaultChannelPipeline\" level=\"ERROR\">\n"
    ∷ "        <appender-ref ref=\"console\"/>\n" ∷ "    </logger>\n" ∷ "</configuration>" ∷ [])

unfoldable pub get_log_conf : List (String × String)
unfolding log4j_console_properties logback_console_xml
get_log_conf =
    ("log4j-console.properties", log4j_console_properties)
    ∷ ("logback-console.xml", logback_console_xml)
    ∷ []
